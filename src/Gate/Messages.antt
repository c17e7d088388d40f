-- ===== src/Gate/Messages.antt =====
-- The bytes that a gate token's stamp covers, `GateToken::message`, as a list of fields.
use wyrtloom.Base.{
  ◌^◌, ◌<◌, ◌≡◌, ◌≢◌, sym, ap, ◌∙◌, arith, String, List, [], ◌∷◌, length, as_bytes,
  as_bytes-injective,
}
use mathlib.Core.List.{append_assoc, append-nil}
use mathlib.Core.Option.{some-injective}
use wyrtloom.Kanban.{
  TaskId, ActorId, TaskState, state_name, backlog, todo, ready, running, blocked, done, archived,
}
use wyrtloom.Sqlite.Trail.{state_from_str-state_name}
use wyrtloom.Sqlite.Store.{state_from_str}
use wyrtloom.Canon.{
  Bytes, to_be_bytes, write, new, tagged, finish, Request, canonical_request, client_auth_domain,
}
use wyrtloom.Canon.Frames.{frames, frames-injective, Short}
use wyrtloom.Canon.Requests.{Fits, canonical_request-frames, parts, parts-Short}
use wyrtloom.Gate.{
  BlameNotice, gate_domain, task_tag, from_tag, to_tag, actor_tag, blame_notice_tag,
  blame_template_tag, digest_tag, uuid_bytes, message,
}

-- The fields of a token that its stamp covers.
pub record Claims : Type 0 where
  pub task : TaskId
  pub from : TaskState
  pub to : TaskState
  pub actor : ActorId
  pub blame : BlameNotice
  pub digest_summary : String

abbrev pub message_of : Claims → Bytes
message_of t = message t.task t.from t.to t.actor t.blame t.digest_summary

-- A task's id has 128 bits, and the texts are shorter than 2 ^ 64 bytes.
pub record IsSized (t : Claims) : Type 0 where
  pub task_fits : t.task < 2 ^ 128
  pub actor_fits : length (as_bytes t.actor) < 2 ^ 64
  pub notice_fits : length (as_bytes t.blame.notice) < 2 ^ 64
  pub template_fits : length (as_bytes t.blame.review_template) < 2 ^ 64
  pub digest_fits : length (as_bytes t.digest_summary) < 2 ^ 64

abbrev fields : Claims → List Bytes
fields t =
    gate_domain
    ∷ task_tag
    ∷ uuid_bytes t.task
    ∷ from_tag
    ∷ as_bytes (state_name t.from)
    ∷ to_tag
    ∷ as_bytes (state_name t.to)
    ∷ actor_tag
    ∷ as_bytes t.actor
    ∷ blame_notice_tag
    ∷ as_bytes t.blame.notice
    ∷ blame_template_tag
    ∷ as_bytes t.blame.review_template
    ∷ digest_tag
    ∷ as_bytes t.digest_summary
    ∷ []

message-frames : (t : Claims) → message_of t ≡ frames (fields t)
unfolding message finish tagged new write
message-frames t = simp (append_assoc, append-nil)

name_fits : (s : TaskState) → length (as_bytes (state_name s)) < 2 ^ 64
unfolding state_name as_bytes
name_fits backlog = omega arith
name_fits todo = omega arith
name_fits ready = omega arith
name_fits running = omega arith
name_fits blocked = omega arith
name_fits done = omega arith
name_fits archived = omega arith

fields-Short : (t : Claims) → IsSized t → Short (fields t)
unfolding gate_domain task_tag from_tag to_tag actor_tag blame_notice_tag blame_template_tag
    digest_tag uuid_bytes to_be_bytes
fields-Short t h = omega (arith, name_fits t.from, name_fits t.to)

state_name-injective : (s t : TaskState) → as_bytes (state_name s) ≡ as_bytes (state_name t) → s ≡ t
state_name-injective s t e = some-injective s t (
    sym (state_from_str-state_name s)
    ∙ ap state_from_str (as_bytes-injective _ _ e)
    ∙ state_from_str-state_name t)

uuid_bytes-injective :
    (m n : TaskId) → m < 2 ^ 128 → n < 2 ^ 128 → uuid_bytes m ≡ uuid_bytes n → m ≡ n
unfolding uuid_bytes to_be_bytes
uuid_bytes-injective m n h k e = ground (arith, e)

-- Tokens of the sizes that occur, stamped over the same bytes, agree in task, states, actor, blame
-- notice and digest.
pub message-injective : (t u : Claims) → IsSized t → IsSized u → message_of t ≡ message_of u → t ≡ u
message-injective t u h k e =
    let same : fields t ≡ fields u =
      frames-injective (fields t) (fields u) (fields-Short t h) (fields-Short u k)
        (sym (message-frames t) ∙ e ∙ message-frames u) in
    let id : uuid_bytes t.task ≡ uuid_bytes u.task = cc same in
    let from : as_bytes (state_name t.from) ≡ as_bytes (state_name u.from) = cc same in
    let to : as_bytes (state_name t.to) ≡ as_bytes (state_name u.to) = cc same in
    let actor : as_bytes t.actor ≡ as_bytes u.actor = cc same in
    let notice : as_bytes t.blame.notice ≡ as_bytes u.blame.notice = cc same in
    let template : as_bytes t.blame.review_template ≡ as_bytes u.blame.review_template = cc same in
    let digest : as_bytes t.digest_summary ≡ as_bytes u.digest_summary = cc same in
    cc (
      uuid_bytes-injective t.task u.task h.task_fits k.task_fits id,
      state_name-injective t.from u.from from,
      state_name-injective t.to u.to to,
      as_bytes-injective _ _ actor,
      as_bytes-injective _ _ notice,
      as_bytes-injective _ _ template,
      as_bytes-injective _ _ digest,
    )

-- No token and no client request, of the sizes that occur, are stamped over the same bytes.
pub message-canonical_request :
    (t : Claims) (r : Request) → IsSized t → Fits r → message_of t ≢ canonical_request r
unfolding gate_domain client_auth_domain
message-canonical_request t r h k e =
    let same : fields t ≡ parts r =
      frames-injective (fields t) (parts r) (fields-Short t h) (parts-Short r k)
        (sym (message-frames t) ∙ e ∙ canonical_request-frames r) in
    cc same
