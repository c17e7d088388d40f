-- ===== src/Calibration.antt =====
-- The calibration ledger, crates/plugin-calibration-ledger/src/lib.rs: Bayesian knowledge tracing on
-- doubles, and the methods of `CalibrationLedger` on a connection. A row's key is its place in the
-- table; an integer column holds a number, of which the code writes 0 and 1. chrono is the parameter
-- `Calendar`.
mod Examples
pub mod Events
mod Replay
use wyrtloom.Base.{
  ◌≡◌, ℕ, ◌+◌, ◌%◌, ◌^◌, any, sort_by, zero, suc, Bool, true, false, not, ◌&&◌, ◌||◌, String,
  Option, none, some, List, [], ◌∷◌, ◌++◌, map, any, keep, length, str_eq, str_le, sort_by,
  if◌then◌else◌,
}
use wyrtloom.F64.{F64}
use wyrtloom.Kanban.{ActorId, Timestamp}
use wyrtloom.Db.{
  Result, ok, err, Conn, M, pure, fail, give, statement, query, and_then, ◌>>=◌, ◌>>◌, each_row,
}

abbrev pub ConceptId : Type 0
ConceptId = String

-- A signed count of days.
pub data ℤ : Type 0 where
  pos negsuc : ℕ → ℤ

-- chrono's fixed-width text of a time, its reader, and a time less a number of days, where both are
-- in range.
pub record Calendar : Type 0 where
  pub show_fixed : Timestamp → String
  pub parse_time : String → Option Timestamp
  pub sub_days : Timestamp → ℕ → Option Timestamp
  pub parse-show_fixed : (t : Timestamp) → parse_time (show_fixed t) ≡ some t

-- What the text of a storage error tells apart.
pub data LedgerError : Type 0 where
  insert_failed prepare_failed query_failed row_read_failed delete_failed prune_failed : LedgerError
  malformed_timestamp negative_window window_out_of_range : LedgerError
  malformed_boolean : ℕ → LedgerError

pub record ProbeEvent : Type 0 where
  pub actor : ActorId
  pub concept : ConceptId
  pub predicted_correct : Bool
  pub was_correct : Bool
  pub at : Timestamp

pub record ConceptRedundancy : Type 0 where
  pub concept : ConceptId
  pub redundant_actors : ℕ

-- A row of `probe_events`.
pub record EventRow : Type 0 where
  pub actor : String
  pub concept : String
  pub predicted : ℕ
  pub correct : ℕ
  pub at : String

abbrev pub Events : Type 0
Events = List EventRow

abbrev pub Ledger : Type 0 → Type 0
Ledger A = M Events LedgerError A

unfoldable pub init_schema : Events
init_schema = []

-- `as i64`
abbrev pub as_number : Bool → ℕ
as_number b = if b then 1 else 0

unfoldable pub to_bool : ℕ → Result LedgerError Bool
to_bool zero = ok false
to_bool (suc zero) = ok true
to_bool other = err (malformed_boolean other)

unfoldable pub outcomes : ActorId → ConceptId → Ledger (List Bool)
unfolding each_row to_bool ◌>>=◌
outcomes actor concept = do
  query prepare_failed (λ _. tt)
  rows ← query query_failed (λ t.
      map (λ (r : EventRow). r.correct)
        (keep (λ r. str_eq r.actor actor && str_eq r.concept concept) t))
  each_row row_read_failed to_bool rows

-- The number of the rows that a `DELETE` removes, and the others.
abbrev pub deleting : (EventRow → Bool) → Events → ℕ × Events
deleting p t = (length (keep p t), keep (λ r. not (p r)) t)

unfoldable pub delete_actor : ActorId → Ledger ℕ
unfolding statement
delete_actor actor = statement delete_failed (deleting λ r. str_eq r.actor actor)

-- `a < b` on texts
abbrev pub str_lt : String → String → Bool
str_lt a b = not (str_le b a)

abbrev pub pair_eq : ActorId × ConceptId → ActorId × ConceptId → Bool
pair_eq (a, c) (b, d) = str_eq a b && str_eq c d

-- `ORDER BY concept, actor`
abbrev pub pair_le : ActorId × ConceptId → ActorId × ConceptId → Bool
pair_le (a, c) (b, d) = if str_eq c d then str_le a b else str_le c d

-- `SELECT DISTINCT actor, concept`
unfoldable pub pairs_of : Events → List (ActorId × ConceptId)
pairs_of t = sort_by pair_le (distinct t)
  where
    distinct : Events → List (ActorId × ConceptId)
    distinct [] = []
    distinct (r ∷ rs) =
        let rest = distinct rs in
        if any (pair_eq (r.actor, r.concept)) rest then rest else (r.actor, r.concept) ∷ rest

module _ (cal : Calendar) where
  unfoldable pub row_of : ProbeEvent → EventRow
  row_of e = record {
    actor = e.actor;
    concept = e.concept;
    predicted = as_number e.predicted_correct;
    correct = as_number e.was_correct;
    at = cal.show_fixed e.at;
  }

  unfoldable pub record_event : ProbeEvent → Ledger Unit
  unfolding statement row_of
  record_event event = statement insert_failed λ t. (tt, t ++ row_of event ∷ [])

  unfoldable pub event_at : EventRow → Option Timestamp → Result LedgerError ProbeEvent
  unfolding to_bool
  event_at r none = err malformed_timestamp
  event_at r (some at) = and_then (to_bool r.predicted) λ predicted.
      and_then (to_bool r.correct) λ correct. ok (record {
        actor = r.actor;
        concept = r.concept;
        predicted_correct = predicted;
        was_correct = correct;
        at = at;
      })

  unfoldable pub read_event : EventRow → Result LedgerError ProbeEvent
  unfolding event_at
  read_event r = event_at r (cal.parse_time r.at)

  unfoldable pub export_actor : ActorId → Ledger (List ProbeEvent)
  unfolding each_row read_event ◌>>=◌
  export_actor actor = do
    query prepare_failed (λ _. tt)
    rows ← query query_failed (keep λ r. str_eq r.actor actor)
    each_row row_read_failed read_event rows

  unfoldable pub prune_before : Option Timestamp → Ledger ℕ
  unfolding statement fail
  prune_before none = fail window_out_of_range
  prune_before (some cutoff) =
      statement prune_failed (deleting λ r. str_lt r.at (cal.show_fixed cutoff))

  unfoldable pub prune_older_than : ℤ → Timestamp → Ledger ℕ
  unfolding prune_before fail
  prune_older_than (negsuc n) now = fail negative_window
  prune_older_than (pos days) now = prune_before (cal.sub_days now days)

module _ (f : F64) where
  pub record BktParams : Type 0 where
    pub p_l0 : f.Num
    pub p_t : f.Num
    pub p_s : f.Num
    pub p_g : f.Num

  unfoldable pub default_params : BktParams
  default_params = record {
    p_l0 = f.lit 30 2;
    p_t = f.lit 10 2;
    p_s = f.lit 10 2;
    p_g = f.lit 20 2;
  }

  abbrev pub transit : BktParams → f.Num → f.Num
  transit ps posterior = f.add posterior (f.mul (f.sub (f.lit 1 0) posterior) ps.p_t)

  abbrev pub posterior_of : f.Num → f.Num → f.Num → f.Num
  posterior_of p num den = if f.eq den (f.lit 0 0) then p else f.div num den

  unfoldable pub update : BktParams → f.Num → Bool → f.Num
  update ps p correct =
      let one = f.lit 1 0 in
      let right = f.mul p (f.sub one ps.p_s) in
      let wrong = f.mul p ps.p_s in
      transit ps (
        if correct
        then posterior_of p right (f.add right (f.mul (f.sub one p) ps.p_g))
        else posterior_of p wrong (f.add wrong (f.mul (f.sub one p) (f.sub one ps.p_g))))

  unfoldable pub replay : BktParams → f.Num → List Bool → f.Num
  unfolding update
  replay ps p [] = p
  replay ps p (correct ∷ rest) = replay ps (update ps p correct) rest

  unfoldable pub mastery : ActorId → ConceptId → Ledger f.Num
  unfolding outcomes replay default_params ◌>>=◌
  mastery actor concept = do
    seen ← outcomes actor concept
    pure (replay default_params default_params.p_l0 seen)

  -- `counts.entry(concept).or_insert(0)`, and one more where the mastery passes the threshold.
  unfoldable pub tally_pair : ConceptId → Bool → List ConceptRedundancy → List ConceptRedundancy
  tally_pair concept high [] = record { concept = concept; redundant_actors = as_number high } ∷ []
  tally_pair concept high (r ∷ rs) =
      if str_eq r.concept concept
      then record r { redundant_actors = (r.redundant_actors + as_number high) % 2 ^ 64 } ∷ rs
      else if str_lt concept r.concept
      then record { concept = concept; redundant_actors = as_number high } ∷ r ∷ rs
      else r ∷ tally_pair concept high rs

  unfoldable pub count_pairs :
      List (ActorId × ConceptId) → List ConceptRedundancy → Ledger (List ConceptRedundancy)
  unfolding mastery tally_pair ◌>>=◌
  count_pairs [] counts = pure counts
  count_pairs ((actor, concept) ∷ pairs) counts = do
    m ← mastery actor concept
    count_pairs pairs (tally_pair concept (f.ge m (f.lit 95 2)) counts)

  unfoldable pub team_concept_redundancy : Ledger (List ConceptRedundancy)
  unfolding pairs_of count_pairs each_row ◌>>=◌
  team_concept_redundancy = do
    query prepare_failed (λ _. tt)
    rows ← query query_failed pairs_of
    pairs ← each_row row_read_failed ok rows
    count_pairs pairs []
