-- ===== src/Insight/Rows.antt =====
-- What the rows of the insight artifacts hold, by the reading of `get`.
use wyrtloom.Base.{
  ◌≡◌, refl, sym, ap, ◌∙◌, subst, arith, false, String, Option, none, some, List, [], ◌∷◌, ◌++◌,
  any, str_eq, str_eq_refl, Bool-cases, inl, inr,
}
use wyrtloom.Db.{Result, ok, err, Conn, and_then, or_err}
use wyrtloom.Db.Errors.{
  Errs, or_err-Errs, Fails, give-Fails, query-Fails, bind-Fails, constrained-Fails,
}
use wyrtloom.Db.Laws.{
  Reads, Writes, Tells, Reads-Tells, bind-Reads, bind-Writes, query-Reads, give-Reads,
  constrained-Writes, inside, Result-cases, err≢ok,
}
use wyrtloom.Insight.{
  Uuid, InsightArtifact, prepare_failed, query_failed, row_read_failed, insert_failed,
  ArtifactError, storage, not_found, self_supersede, InsightRow, Formats, find_row, insert_row,
  row_of, row_to_artifact, decode_found, get, store,
}

abbrev pub IsStorage : ArtifactError → Type 0
IsStorage (storage e) = Unit
IsStorage (not_found i) = ⊥
IsStorage (self_supersede i) = ⊥

module _ (fmt : Formats) where
  row_to_artifact-IsStorage : (r : InsightRow) → Errs IsStorage (row_to_artifact fmt r)
  unfolding row_to_artifact
  row_to_artifact-IsStorage r = or_err-Errs IsStorage (fmt.ids.parse_id r.id) _ _ tt λ i.
      or_err-Errs IsStorage (fmt.time.parse_time r.created_at) _ _ tt λ w.
        or_err-Errs IsStorage (fmt.born_of.from_str r.born_of) _ _ tt λ b.
          or_err-Errs IsStorage (fmt.concepts.from_str r.concepts) _ _ tt λ c.
            or_err-Errs IsStorage (fmt.links.from_str r.links) _ _ tt
              λ l. or_err-Errs IsStorage (fmt.status.from_str r.status) _ _ tt λ s. tt

  row_of-IsStorage : (a : InsightArtifact) → Errs IsStorage (row_of fmt a)
  unfolding row_of
  row_of-IsStorage a = or_err-Errs IsStorage (fmt.born_of.to_string a.born_of) _ _ tt λ b.
      or_err-Errs IsStorage (fmt.concepts.to_string a.concepts) _ _ tt λ c.
        or_err-Errs IsStorage (fmt.links.to_string a.links) _ _ tt
          λ l. or_err-Errs IsStorage (fmt.status.to_string a.status) _ _ tt λ s. tt

  some-IsStorage :
      (x : Result ArtifactError InsightArtifact)
      → Errs IsStorage x
      → Errs IsStorage (and_then x (λ a. ok (some a)))
  some-IsStorage (ok a) h = tt
  some-IsStorage (err e) h = h

  decode_found-IsStorage : (o : Option InsightRow) → Errs IsStorage (decode_found fmt o)
  unfolding decode_found
  decode_found-IsStorage none = tt
  decode_found-IsStorage (some r) =
      some-IsStorage (row_to_artifact fmt r) (row_to_artifact-IsStorage r)

  insert_row-IsStorage : (r : InsightRow) (t : List InsightRow) → Errs IsStorage (insert_row r t)
  unfolding insert_row
  insert_row-IsStorage r t = elim (Bool-cases (any (λ s. str_eq s.id r.id) t)) [
    | inl h ↦ rw h tt
    | inr h ↦ rw h tt
  ]

  pub store-IsStorage : (a : InsightArtifact) → Fails IsStorage (store fmt a)
  unfolding store
  store-IsStorage a =
      bind-Fails IsStorage _ _ (give-Fails IsStorage (row_of fmt a) (row_of-IsStorage a)) λ r.
        constrained-Fails IsStorage (storage insert_failed) (insert_row r) tt
          (insert_row-IsStorage r)

  -- What `get` reads under the id, where SQLite refuses nothing.
  abbrev pub held : List InsightRow → Uuid → Result ArtifactError (Option InsightArtifact)
  held t i = decode_found fmt (find_row (fmt.ids.show_id i) t)

  pub get-Reads : (i : Uuid) → Reads (get fmt i) (λ t. held t i)
  unfolding get
  get-Reads i =
      let key = fmt.ids.show_id i in
      bind-Reads (λ t. ok tt) (λ _ t. held t i) (query-Reads (storage prepare_failed) (λ t. tt))
        λ _.
          bind-Reads (λ t. ok tt) (λ _ t. held t i) (query-Reads (storage query_failed) (λ t. tt))
            λ _.
              bind-Reads (λ t. ok (find_row key t)) (λ found t. decode_found fmt found)
                (query-Reads (storage row_read_failed) (find_row key))
                (λ found. give-Reads (decode_found fmt found))

  pub get-IsStorage : (i : Uuid) → Fails IsStorage (get fmt i)
  unfolding get
  get-IsStorage i =
      bind-Fails IsStorage _ _ (query-Fails IsStorage (storage prepare_failed) (λ t. tt) tt) λ _.
        bind-Fails IsStorage _ _ (query-Fails IsStorage (storage query_failed) (λ t. tt) tt) λ _.
          bind-Fails IsStorage _ _
            (query-Fails IsStorage (storage row_read_failed) (find_row (fmt.ids.show_id i)) tt)
            (λ found. give-Fails IsStorage (decode_found fmt found) (decode_found-IsStorage found))

  pub stored : InsightArtifact → List InsightRow → Result ArtifactError (Unit × List InsightRow)
  stored a t = and_then (row_of fmt a) λ r. insert_row r t

  pub store-Writes : (a : InsightArtifact) → Writes (store fmt a) (stored a)
  unfolding store stored
  store-Writes a =
      bind-Writes (λ t. row_of fmt a) insert_row (give-Reads (row_of fmt a))
        λ r. constrained-Writes (storage insert_failed) (insert_row r)

  pub passed :
      {A B : Type 0} (o : Option A) (e : ArtifactError) (k : A → Result ArtifactError B) {b : B}
      → and_then (or_err o e) k ≡ ok b
      → (a : A) × (o ≡ some a) × (k a ≡ ok b)
  passed none e k h = cc
  passed (some a) e k h = (a, refl, h)

  -- The row that an artifact has been written as reads as the artifact, under its id.
  record IsWritten (a : InsightArtifact) (r : InsightRow) : Type 0 where
    key : r.id ≡ fmt.ids.show_id a.id
    reads : row_to_artifact fmt r ≡ ok a

  row_of-IsWritten : (a : InsightArtifact) {r : InsightRow} → row_of fmt a ≡ ok r → IsWritten a r
  unfolding row_of row_to_artifact
  row_of-IsWritten a {r} e =
      let (b, eb, e1) = passed (fmt.born_of.to_string a.born_of) _ _ e in
      let (c, ec, e2) = passed (fmt.concepts.to_string a.concepts) _ _ e1 in
      let (l, el, e3) = passed (fmt.links.to_string a.links) _ _ e2 in
      let (s, es, e4) = passed (fmt.status.to_string a.status) _ _ e3 in
      subst (IsWritten a) (inside e4) (record {
        key = refl;
        reads = rw (fmt.ids.parse-show_id a.id) (
            rw (fmt.time.parse-show_time a.created_at) (
              rw (fmt.born_of.from_str-to_string a.born_of b eb) (
                rw (fmt.concepts.from_str-to_string a.concepts c ec) (
                  rw (fmt.links.from_str-to_string a.links l el)
                    (rw (fmt.status.from_str-to_string a.status s es) refl)))));
      })

  -- A longer table, and a row's mark, as `find_row` sees them.
  find_row-append :
      (key : String) (t u : List InsightRow) {r : InsightRow}
      → find_row key t ≡ some r
      → find_row key (t ++ u) ≡ some r
  unfolding find_row
  find_row-append key [] u e = cc
  find_row-append key (s ∷ t) u {r} e = elim (Bool-cases (str_eq s.id key)) [
    | inl h ↦ rw h (rw h at e)
    | inr h ↦ rw h (find_row-append key t u (rw h at e))
  ]

  find_row-fresh :
      (r : InsightRow) (t : List InsightRow)
      → any (λ s. str_eq s.id r.id) t ≡ false
      → find_row r.id (t ++ r ∷ []) ≡ some r
  unfolding find_row
  find_row-fresh r [] e = rw (str_eq_refl r.id) refl
  find_row-fresh r (s ∷ t) e = elim (Bool-cases (str_eq s.id r.id)) [
    | inl h ↦ absurd (ground (arith, h, e))
    | inr h ↦ rw h (find_row-fresh r t (ground (arith, h, e)))
  ]

  -- Whatever is held stays held.
  abbrev pub Keeps : List InsightRow → List InsightRow → Type 0
  Keeps t u = (i : Uuid) (a : InsightArtifact) → held t i ≡ ok (some a) → held u i ≡ ok (some a)

  some_read :
      (x : Result ArtifactError InsightArtifact) (a : InsightArtifact)
      → and_then x (λ b. ok (some b)) ≡ ok (some a)
      → x ≡ ok a
  some_read (ok b) a e = cc
  some_read (err d) a e = cc

  pub held_row :
      (o : Option InsightRow) (a : InsightArtifact)
      → decode_found fmt o ≡ ok (some a)
      → (r : InsightRow) × (o ≡ some r) × (row_to_artifact fmt r ≡ ok a)
  unfolding decode_found
  held_row none a e = cc
  held_row (some r) a e = (r, refl, some_read (row_to_artifact fmt r) a e)

  append-Keeps : (t u : List InsightRow) → Keeps t (t ++ u)
  append-Keeps t u i a e =
      let (r, found, _) = held_row (find_row (fmt.ids.show_id i) t) a e in
      ap (decode_found fmt) (find_row-append (fmt.ids.show_id i) t u found ∙ sym found) ∙ e

  inserted :
      (r : InsightRow) (t u : List InsightRow)
      → insert_row r t ≡ ok (tt, u)
      → (any (λ s. str_eq s.id r.id) t ≡ false) × (t ++ r ∷ [] ≡ u)
  unfolding insert_row
  inserted r t u e = elim (Bool-cases (any (λ s. str_eq s.id r.id) t)) [
    | inl h ↦ absurd (refuses (rw h at e))
    | inr h ↦ (h, ap (λ p. p.1) (inside (rw h at e)))
  ]
    where
      refuses :
          ◌≡◌ {A = Result ArtifactError (Unit × List InsightRow)}
            (err (storage insert_failed))
            (ok (tt, u))
          → ⊥
      refuses q = cc

  written-held :
      (a : InsightArtifact) (r : InsightRow) (t u : List InsightRow)
      → IsWritten a r
      → insert_row r t ≡ ok (tt, u)
      → Keeps t u × (held u a.id ≡ ok (some a))
  unfolding decode_found
  written-held a r t u w e =
      let (fresh, grown) = inserted r t u e in
      subst (λ v. Keeps t v × (held v a.id ≡ ok (some a))) grown
        (
          append-Keeps t (r ∷ []),
          ap (λ k. decode_found fmt (find_row k (t ++ r ∷ []))) (sym w.key)
              ∙ ap (decode_found fmt) (find_row-fresh r t fresh)
              ∙ ap (λ x. and_then x (λ b. ok (some b))) w.reads,
        )

  -- A successful `store` keeps what is held, and then the artifact is held.
  pub stored-held :
      (a : InsightArtifact) (t u : List InsightRow)
      → stored a t ≡ ok (tt, u)
      → Keeps t u × (held u a.id ≡ ok (some a))
  unfolding stored
  stored-held a t u e = elim (Result-cases (row_of fmt a)) [
    | inl (r, h) ↦ written-held a r t u (row_of-IsWritten a h) (rw h at e)
    | inr (d, h) ↦ absurd (err≢ok (rw h at e))
  ]

  -- After a `store` that succeeds, all that was held is held still, and `get` reads the artifact back,
  -- every field of it; or SQLite refuses the reading a statement.
  pub store-get :
      (a : InsightArtifact) (c : Conn (List InsightRow))
      → (store fmt a c).0 ≡ ok tt
      → Keeps c.tables (store fmt a c).1.tables × Tells (get fmt a.id) (store fmt a c).1 (some a)
  store-get a c e =
      let (clear, right, wrong) = store-Writes a c in
      let (kept, there) = stored-held a c.tables (store fmt a c).1.tables (right tt e) in
      (kept, Reads-Tells (λ t. held t a.id) (store fmt a c).1 (some a) (get-Reads a.id) there)
