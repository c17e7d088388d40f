-- ===== src/Insight/Superseding.antt =====
-- What a call of `supersede` leaves, on each of its branches.
use wyrtloom.Base.{
  ◌≡◌, ◌≢◌, refl, sym, ap, ◌∙◌, arith, Bool, true, false, String, Option, none, some, List, [], ◌∷◌,
  map, str_eq, str_eq_iff, ◌==◌, ==_iff, Bool-cases, inl, inr, if◌then◌else◌,
}
use wyrtloom.Kanban.{Timestamp}
use wyrtloom.Rationale.Rows.{show_eq}
use wyrtloom.Db.{
  Result, ok, err, Conn, M, pure, fail, give, statement, on_ok, and_then, or_err, ◌>>=◌,
}
use wyrtloom.Db.Errors.{Errs}
use wyrtloom.Db.Laws.{inside}
use wyrtloom.Insight.{
  Uuid, ConceptId, BornOf, Link, Status, superseded, InsightArtifact, row_read_failed,
  serialize_status, update_failed, ArtifactError, storage, not_found, self_supersede, InsightRow,
  Formats, find_row, mark, count_rows, update_status, row_to_artifact, decode_found, get, store,
  store_missing, check_affected, supersede,
}
use wyrtloom.Insight.Rows.{
  held, Keeps, IsStorage, get-IsStorage, store-IsStorage, held_row, get-Reads, stored, store-Writes,
  stored-held,
}

abbrev set_status : String → InsightRow → InsightRow
set_status s r = record r { status = s }

abbrev opt_map : (InsightRow → InsightRow) → Option InsightRow → Option InsightRow
opt_map f none = none
opt_map f (some r) = some (f r)

mark-id : (s key : String) (r : InsightRow) → (mark s key r).id ≡ r.id
unfolding mark
mark-id s key r = ground arith

find_row-mark :
    (s key k : String) (t : List InsightRow)
    → find_row k (map (mark s key) t) ≡ opt_map (mark s key) (find_row k t)
unfolding find_row mark
find_row-mark s key k [] = refl
find_row-mark s key k (r ∷ t) = elim (Bool-cases (str_eq r.id k)) [
  | inl h ↦ rw (mark-id s key r) (rw h refl)
  | inr h ↦ rw (mark-id s key r) (rw h (find_row-mark s key k t))
]

find_row-id : (k : String) (t : List InsightRow) {r : InsightRow} → find_row k t ≡ some r → r.id ≡ k
unfolding find_row
find_row-id k [] e = cc
find_row-id k (s ∷ t) {r} e = elim (Bool-cases (str_eq s.id k)) [
  | inl h ↦ ground (arith, rw h at e, str_eq_iff s.id k, h)
  | inr h ↦ find_row-id k t (rw h at e)
]

-- No row has the key: nothing is marked, and nothing is found.
unmarked :
    (s key : String) (t : List InsightRow)
    → count_rows key t ≡ 0
    → (map (mark s key) t ≡ t) × (find_row key t ≡ none)
unfolding find_row mark
unmarked s key [] e = (refl, refl)
unmarked s key (r ∷ t) e = elim (Bool-cases (str_eq r.id key)) [
  | inl h ↦ absurd (ground (arith, h, e))
  | inr h ↦
      let (same, missing) = unmarked s key t (ground (arith, h, e)) in
      rw h (ap (λ l. r ∷ l) same, missing)
]

-- The artifact under i, after old has been superseded by n.
abbrev pub after : Uuid → Uuid → Uuid → InsightArtifact → InsightArtifact
after old n i a = if i == old then record a { status = superseded n } else a

-- The artifact of a row, from what its fields read as.
abbrev assembled :
    String
    → String
    → Option Uuid
    → Option Timestamp
    → Option BornOf
    → Option (List ConceptId)
    → Option (List Link)
    → Option Status
    → Result ArtifactError InsightArtifact
assembled author abstraction i w b c l t = and_then (or_err i (storage row_read_failed)) λ i.
    and_then (or_err w (storage row_read_failed)) λ w.
      and_then (or_err b (storage row_read_failed)) λ b.
        and_then (or_err c (storage row_read_failed)) λ c.
          and_then (or_err l (storage row_read_failed)) λ l.
            and_then (or_err t (storage row_read_failed)) λ t. ok (record {
              id = i;
              author = author;
              created_at = w;
              abstraction = abstraction;
              born_of = b;
              concepts = c;
              links = l;
              status = t;
            })

reassembled :
    (author abstraction : String) (i : Option Uuid) (w : Option Timestamp) (b : Option BornOf)
    (c : Option (List ConceptId)) (l : Option (List Link)) (t : Option Status) (a : InsightArtifact)
    (st : Status)
    → assembled author abstraction i w b c l t ≡ ok a
    → assembled author abstraction i w b c l (some st) ≡ ok (record a { status = st })
reassembled u v none w b c l t a st e = cc
reassembled u v (some i) none b c l t a st e = cc
reassembled u v (some i) (some w) none c l t a st e = cc
reassembled u v (some i) (some w) (some b) none l t a st e = cc
reassembled u v (some i) (some w) (some b) (some c) none t a st e = cc
reassembled u v (some i) (some w) (some b) (some c) (some l) none a st e = cc
reassembled u v (some i) (some w) (some b) (some c) (some l) (some t) a st e =
    ap (λ (x : InsightArtifact). ok (record x { status = st })) (inside e)

after-other : (old n : Uuid) (a : InsightArtifact) → old ≢ n → after old n n a ≡ a
after-other old n a h = elim (Bool-cases (n == old)) [
  | inl e ↦ absurd (h (sym ((==_iff n old).0 e)))
  | inr e ↦ rw e refl
]

other :
    {a : InsightArtifact}
    → ◌≡◌ {A = Result ArtifactError (Option InsightArtifact)} (ok (some a)) (ok none)
    → ⊥
other e = cc

apart : (i j : Uuid) → (i == j) ≡ false → i ≢ j
apart i j e h = ground (arith, e, h)

module _ (fmt : Formats) where
  set_status-reads :
      (r : InsightRow) (a : InsightArtifact) (s : String) (st : Status)
      → row_to_artifact fmt r ≡ ok a
      → fmt.status.from_str s ≡ some st
      → row_to_artifact fmt (set_status s r) ≡ ok (record a { status = st })
  unfolding row_to_artifact
  set_status-reads r a s st e h =
      ap
        (assembled r.author r.abstraction (fmt.ids.parse_id r.id) (fmt.time.parse_time r.created_at)
          (fmt.born_of.from_str r.born_of) (fmt.concepts.from_str r.concepts)
          (fmt.links.from_str r.links))
        h
      ∙ reassembled r.author r.abstraction (fmt.ids.parse_id r.id)
          (fmt.time.parse_time r.created_at) (fmt.born_of.from_str r.born_of)
          (fmt.concepts.from_str r.concepts) (fmt.links.from_str r.links)
          (fmt.status.from_str r.status) a st e

  -- What is held before the update, as it is held after it.
  pub Changes : Uuid → Uuid → List InsightRow → List InsightRow → Type 0
  Changes old n t u =
      (i : Uuid) (a : InsightArtifact)
      → held fmt t i ≡ ok (some a)
      → held fmt u i ≡ ok (some (after old n i a))

  marked-Changes :
      (old n : Uuid) (s : String) (t : List InsightRow)
      → fmt.status.from_str s ≡ some (superseded n)
      → Changes old n t (map (mark s (fmt.ids.show_id old)) t)
  unfolding mark decode_found Changes
  marked-Changes old n s t h i a e =
      let (r, found, reads) = held_row fmt (find_row (fmt.ids.show_id i) t) a e in
      let same = find_row-id (fmt.ids.show_id i) t found in
      let key = fmt.ids.show_id old in
      let step = find_row-mark s key (fmt.ids.show_id i) t ∙ ap (opt_map (mark s key)) found in
      let test : str_eq r.id key ≡ (i == old) =
        ap (λ x. str_eq x key) same ∙ show_eq fmt.ids i old in
      ap (decode_found fmt) step ∙ elim (Bool-cases (i == old)) [
        | inl y ↦ rw test (
            rw y (
              ap (λ x. and_then x (λ b. ok (some b)))
                (set_status-reads r a s (superseded n) reads h)))
        | inr y ↦ rw test (rw y (ap (λ x. and_then x (λ b. ok (some b))) reads))
      ]

  -- The artifact is held from now on, if it was not.
  abbrev pub Captured : InsightArtifact → List InsightRow → List InsightRow → Type 0
  Captured new t u = held fmt t new.id ≡ ok none → held fmt u new.id ≡ ok (some new)

  -- What the call leaves of the rows t.
  abbrev pub Outcome :
      Uuid
      → InsightArtifact
      → List InsightRow
      → Result ArtifactError Unit
      → List InsightRow
      → Type 0
  Outcome old new t (ok done) u = (old ≢ new.id) × Changes old new.id t u × Captured new t u
  Outcome old new t (err (self_supersede i)) u = (old ≡ new.id) × (i ≡ old) × (u ≡ t)
  Outcome old new t (err (not_found i)) u =
      (i ≡ old) × (held fmt u old ≡ ok none) × Keeps fmt t u × Captured new t u
  Outcome old new t (err (storage e)) u = Keeps fmt t u

  same_tables : (t u : List InsightRow) → u ≡ t → Keeps fmt t u
  same_tables t u e i a h = ap (λ v. held fmt v i) e ∙ h

  storage_left :
      (t u : List InsightRow) (old : Uuid) (new : InsightArtifact) (e : ArtifactError)
      → IsStorage e
      → Keeps fmt t u
      → Outcome old new t (err e) u
  storage_left t u old new (storage d) h k = k
  storage_left t u old new (not_found i) h k = absurd h
  storage_left t u old new (self_supersede i) h k = absurd h

  abbrev Ends :
      Uuid
      → InsightArtifact
      → List InsightRow
      → Result ArtifactError Unit × Conn (List InsightRow)
      → Type 0
  Ends old new t x = Outcome old new t x.0 x.1.tables

  module _ (old : Uuid) (new : InsightArtifact) (t u : List InsightRow) (differ : old ≢ new.id)
      (kept : Keeps fmt t u) (captured : Captured new t u) where
    abbrev updated : String → List InsightRow
    updated s = map (mark s (fmt.ids.show_id old)) u

    affected_rows :
        (s : String) (fs : List Bool)
        → fmt.status.from_str s ≡ some (superseded new.id)
        → Ends old new t (
            check_affected fmt old
              (count_rows (fmt.ids.show_id old) u)
              (record { tables = updated s; faults = fs }))
    unfolding check_affected pure fail decode_found Changes
    affected_rows s fs h = elim (Bool-cases (count_rows (fmt.ids.show_id old) u == 0)) [
      | inl e ↦
          let (same, missing) = unmarked s (fmt.ids.show_id old) u ((==_iff _ 0).0 e) in
          rw e (rw same (refl, ap (decode_found fmt) missing, kept, captured))
      | inr e ↦
          let marked = marked-Changes old new.id s u h in
          rw e (
            differ,
            (λ i a k. marked i a (kept i a k)),
            λ k.
                marked new.id new (captured k)
                ∙ ap (λ a. ok (some a)) (after-other old new.id new differ),
          )
    ]

    updated-Ends :
        (s : String) (fs : List Bool)
        → fmt.status.from_str s ≡ some (superseded new.id)
        → Ends old new t (
            (statement (storage update_failed) (update_status s (fmt.ids.show_id old))
                >>= check_affected fmt old)
              (record { tables = u; faults = fs }))
    unfolding ◌>>=◌ statement update_status
    updated-Ends s [] h = affected_rows s [] h
    updated-Ends s (false ∷ fs) h = affected_rows s fs h
    updated-Ends s (true ∷ fs) h = kept

    -- The rest of the call, once the new artifact is there.
    rest-Ends :
        (o : Option String) (fs : List Bool)
        → fmt.status.to_string (superseded new.id) ≡ o
        → Ends old new t (
            (give (or_err o (storage serialize_status)) >>= λ s.
            statement (storage update_failed) (update_status s (fmt.ids.show_id old))
            >>= check_affected fmt old)
              (record { tables = u; faults = fs }))
    unfolding ◌>>=◌ give
    rest-Ends none fs h = kept
    rest-Ends (some s) fs h =
        updated-Ends s fs (fmt.status.from_str-to_string (superseded new.id) s h)

  module _ (old : Uuid) (new : InsightArtifact) (t : List InsightRow) (differ : old ≢ new.id) where
    abbrev rest_of_call : M (List InsightRow) ArtifactError Unit
    rest_of_call =
        give (or_err (fmt.status.to_string (superseded new.id)) (storage serialize_status)) >>= λ s.
        statement (storage update_failed) (update_status s (fmt.ids.show_id old))
        >>= check_affected fmt old

    stored-Ends :
        (x : Result ArtifactError Unit × Conn (List InsightRow))
        → ((a : Unit) → x.0 ≡ ok a → stored fmt new t ≡ ok (a, x.1.tables))
        → ((e : ArtifactError) → x.0 ≡ err e → x.1.tables ≡ t)
        → Errs IsStorage x.0
        → Ends old new t (on_ok x (λ _. rest_of_call))
    stored-Ends (ok a, c) right wrong kind =
        let (kept, there) = stored-held fmt new t c.tables (right a refl) in
        rest-Ends old new t c.tables differ kept (λ k. there) _ c.faults refl
    stored-Ends (err e, c) right wrong kind =
        storage_left t c.tables old new e kind (same_tables t c.tables (wrong e refl))

    -- After the look for the new artifact.
    found-Ends :
        (found : Option InsightArtifact) (c : Conn (List InsightRow))
        → c.tables ≡ t
        → held fmt t new.id ≡ ok found
        → Ends old new t ((store_missing fmt new found >>= λ _. rest_of_call) c)
    unfolding store_missing ◌>>=◌
    found-Ends none c same e =
        let (clear, right, wrong) = store-Writes fmt new c in
        stored-Ends (store fmt new c) (λ a k. ap (stored fmt new) (sym same) ∙ right a k)
          (λ d k. wrong d k ∙ same) (store-IsStorage fmt new c)
    found-Ends (some a) c same e =
        rest-Ends old new t c.tables differ (same_tables t c.tables same)
          (λ k. absurd (other (sym e ∙ k))) _ c.faults refl

    looked-Ends :
        (x : Result ArtifactError (Option InsightArtifact) × Conn (List InsightRow))
        → x.1.tables ≡ t
        → ((o : Option InsightArtifact) → x.0 ≡ ok o → held fmt t new.id ≡ ok o)
        → Errs IsStorage x.0
        → Ends old new t (on_ok x (λ found. store_missing fmt new found >>= λ _. rest_of_call))
    looked-Ends (ok found, c) same right kind = found-Ends found c same (right found refl)
    looked-Ends (err e, c) same right kind =
        storage_left t c.tables old new e kind (same_tables t c.tables same)

  -- An artifact that supersedes itself is refused, and nothing changes. Otherwise, where the call
  -- succeeds: the old artifact is held as superseded by the new one, every other stays as it is, and
  -- the new one is held, if it was not, as it was given. Where no row has the old id: all that is
  -- held stays, and the new artifact is held all the same. Where SQLite refuses a statement, or a
  -- field has no text, all that is held stays.
  pub supersede-Outcome :
      (old : Uuid) (new : InsightArtifact) (c : Conn (List InsightRow))
      → Outcome old new c.tables (supersede fmt old new c).0 (supersede fmt old new c).1.tables
  unfolding supersede ◌>>=◌ fail
  supersede-Outcome old new c = elim (Bool-cases (old == new.id)) [
    | inl e ↦ rw e ((==_iff old new.id).0 e, refl, refl)
    | inr e ↦
        let (same, clear, right) = get-Reads fmt new.id c in
        rw e (
          looked-Ends old new c.tables (apart old new.id e) (get fmt new.id c) same right
            (get-IsStorage fmt new.id c))
  ]
