-- ===== src/Db/Laws.antt =====
-- Computations on a connection that read, and that write once.
use mathlib.Core.Path.{ap₂}
use wyrtloom.Base.{
  ◌⊎◌, inl, inr, map, Bool, true, false, List, [], ◌∷◌, ◌≡◌, refl, sym, ap, ◌∙◌, subst,
}
use wyrtloom.Db.{
  and_then, Result, ok, err, Conn, M, pure, fail, give, statement, query, on_ok, ◌>>=◌, ◌>>◌,
  constrained, kept, each_row, decode_rows,
}

pub inside : {E A : Type 0} {a b : A} → ◌≡◌ {A = Result E A} (ok a) (ok b) → a ≡ b
inside h = cc

pub Result-cases :
    {E A : Type 0} (r : Result E A) → ((a : A) × (r ≡ ok a)) ⊎ ((e : E) × (r ≡ err e))
Result-cases (ok a) = inl (a, refl)
Result-cases (err e) = inr (e, refl)

pub err≢ok : {E A : Type 0} {e : E} {a : A} → ◌≡◌ {A = Result E A} (err e) (ok a) → ⊥
err≢ok h = cc

abbrev pub has_faults : List Bool → Bool
has_faults [] = false
has_faults (b ∷ faults) = true

-- What a reading answers: the value; or an error, and then the script of SQLite's answers had not run
-- out.
abbrev pub Told : {E A : Type 0} → List Bool → A → Result E A → Type 0
Told faults x (ok a) = a ≡ x
Told faults x (err e) = has_faults faults ≡ true

told :
    {E A : Type 0} (faults : List Bool) (x : A) (r s : Result E A)
    → s ≡ ok x
    → (faults ≡ [] → r ≡ s)
    → ((a : A) → r ≡ ok a → s ≡ ok a)
    → Told faults x r
told faults x (ok a) s e clear right = inside (sym (right a refl) ∙ e)
told [] x (err d) s e clear right = absurd (err≢ok (clear refl ∙ e))
told (b ∷ faults) x (err d) s e clear right = refl

module _ {T E : Type 0} where
  -- The tables stay; an answer is the function's; and where SQLite refuses nothing, so is an error.
  abbrev pub Reads : {A : Type 0} → M T E A → (T → Result E A) → Type 0
  Reads {A} m f =
      (c : Conn T)
      → ((m c).1.tables ≡ c.tables)
        × (c.faults ≡ [] → ((m c).1.faults ≡ []) × ((m c).0 ≡ f c.tables))
        × ((a : A) → (m c).0 ≡ ok a → f c.tables ≡ ok a)

  abbrev pub answered : {A : Type 0} → Result E (A × T) → Result E A
  answered (ok (a, t)) = ok a
  answered (err e) = err e

  -- An answer is the function's, and then so are the tables; with an error the tables stay; and where
  -- SQLite refuses nothing the error is the function's.
  abbrev pub Writes : {A : Type 0} → M T E A → (T → Result E (A × T)) → Type 0
  Writes {A} m f =
      (c : Conn T)
      → (c.faults ≡ [] → ((m c).1.faults ≡ []) × ((m c).0 ≡ answered (f c.tables)))
        × ((a : A) → (m c).0 ≡ ok a → f c.tables ≡ ok (a, (m c).1.tables))
        × ((e : E) → (m c).0 ≡ err e → (m c).1.tables ≡ c.tables)

  pub give-Reads : {A : Type 0} (r : Result E A) → Reads (give r) (λ t. r)
  unfolding give
  give-Reads r c = (refl, (λ h. (h, refl)), λ a h. h)

  pub fail-Reads : {A : Type 0} (e : E) → Reads {A = A} (fail e) (λ t. err e)
  unfolding fail
  fail-Reads e c = (refl, (λ h. (h, refl)), λ a h. h)

  pub pure-Reads : {A : Type 0} (a : A) → Reads (pure a) (λ t. ok a)
  unfolding pure
  pure-Reads a c = (refl, (λ h. (h, refl)), λ b h. h)

  paired :
      {A : Type 0} (f : T → A × T) (t : T) (a : A)
      → (f t).0 ≡ a
      → ◌≡◌ {A = Result E (A × T)} (ok (f t)) (ok (a, (f t).1))
  paired f t a h = ap (λ b. ok (b, (f t).1)) h

  -- The statement, from the tables and the faults.
  stated :
      {A : Type 0} (e : E) (f : T → A × T) (t : T) (fs : List Bool)
      → let c : Conn T = record { tables = t; faults = fs } in
        (fs ≡ [] → ((statement e f c).1.faults ≡ []) × ((statement e f c).0 ≡ ok (f t).0))
        × ((a : A)
            → (statement e f c).0 ≡ ok a
            → ◌≡◌ {A = Result E (A × T)} (ok (f t)) (ok (a, (statement e f c).1.tables)))
        × ((d : E) → (statement e f c).0 ≡ err d → (statement e f c).1.tables ≡ t)
  unfolding statement
  stated e f t [] = ((λ h. (refl, refl)), (λ a h. paired f t a (inside h)), λ d h. cc)
  stated e f t (false ∷ fs) = ((λ h. cc), (λ a h. paired f t a (inside h)), λ d h. cc)
  stated e f t (true ∷ fs) = ((λ h. cc), (λ a h. cc), λ d h. refl)

  pub statement-Writes :
      {A : Type 0} (e : E) (f : T → A × T) → Writes (statement e f) (λ t. ok (f t))
  statement-Writes e f c = stated e f c.tables c.faults

  asked :
      {A : Type 0} (e : E) (f : T → A) (t : T) (fs : List Bool)
      → let c : Conn T = record { tables = t; faults = fs } in
        ((query e f c).1.tables ≡ t)
        × (fs ≡ [] → ((query e f c).1.faults ≡ []) × ((query e f c).0 ≡ ok (f t)))
        × ((a : A) → (query e f c).0 ≡ ok a → ◌≡◌ {A = Result E A} (ok (f t)) (ok a))
  unfolding query
  asked e f t [] = (refl, (λ h. (refl, refl)), λ a h. h)
  asked e f t (false ∷ fs) = (refl, (λ h. cc), λ a h. h)
  asked e f t (true ∷ fs) = (refl, (λ h. cc), λ a h. cc)

  settled :
      {A : Type 0} (r : Result E (A × T)) (t : T) (fs : List Bool)
      → let x = kept r t in
        (fs ≡ [] → (fs ≡ []) × (x.0 ≡ answered r))
        × ((a : A) → x.0 ≡ ok a → r ≡ ok (a, x.1))
        × ((d : E) → x.0 ≡ err d → x.1 ≡ t)
  settled (ok (a, u)) t fs = ((λ h. (h, refl)), (λ b h. ap (λ v. ok (v, u)) (inside h)), λ d h. cc)
  settled (err e) t fs = ((λ h. (h, refl)), (λ b h. cc), λ d h. refl)

  constrain :
      {A : Type 0} (e : E) (f : T → Result E (A × T)) (t : T) (fs : List Bool)
      → let c : Conn T = record { tables = t; faults = fs } in
        (fs ≡ [] → ((constrained e f c).1.faults ≡ []) × ((constrained e f c).0 ≡ answered (f t)))
        × ((a : A) → (constrained e f c).0 ≡ ok a → f t ≡ ok (a, (constrained e f c).1.tables))
        × ((d : E) → (constrained e f c).0 ≡ err d → (constrained e f c).1.tables ≡ t)
  unfolding constrained
  constrain e f t [] = settled (f t) t []
  constrain e f t (false ∷ fs) = let (x, y, z) = settled (f t) t fs in ((λ h. cc), y, z)
  constrain e f t (true ∷ fs) = ((λ h. cc), (λ a h. cc), λ d h. refl)

  pub constrained-Writes :
      {A : Type 0} (e : E) (f : T → Result E (A × T)) → Writes (constrained e f) f
  constrained-Writes e f c = constrain e f c.tables c.faults

  pub query-Reads : {A : Type 0} (e : E) (f : T → A) → Reads (query e f) (λ t. ok (f t))
  unfolding query
  query-Reads e f c = asked e f c.tables c.faults

  module _ {A B : Type 0} (f : T → Result E A) {k : A → M T E B} where
    after_read :
        (g : A → T → Result E B) (s : (a : A) → Reads (k a) (g a)) (t : T) (fs : List Bool)
        (x : Result E A × Conn T)
        → (x.1.tables ≡ t)
          × (fs ≡ [] → (x.1.faults ≡ []) × (x.0 ≡ f t))
          × ((a : A) → x.0 ≡ ok a → f t ≡ ok a)
        → ((on_ok x k).1.tables ≡ t)
          × (fs ≡ [] → ((on_ok x k).1.faults ≡ []) × ((on_ok x k).0 ≡ and_then (f t) (λ a. g a t)))
          × ((b : B) → (on_ok x k).0 ≡ ok b → and_then (f t) (λ a. g a t) ≡ ok b)
    after_read g s t fs (ok a, c) h =
        let (same, clear, right) = s a c in
        let e = ap (λ r. and_then r (λ a. g a t)) (h.2 a refl) in
        (
          same ∙ h.0,
          (λ none_left.
              ((clear (h.1 none_left).0).0, (clear (h.1 none_left).0).1 ∙ ap (g a) h.0 ∙ sym e)),
          λ b q. e ∙ ap (g a) (sym h.0) ∙ right b q,
        )
    after_read g s t fs (err d, c) h = (
      h.0,
      (λ none_left. ((h.1 none_left).0, ap (λ r. and_then r (λ a. g a t)) (h.1 none_left).1)),
      λ b q. cc,
    )

    pub bind-Reads :
        {m : M T E A} (g : A → T → Result E B)
        → Reads m f
        → ((a : A) → Reads (k a) (g a))
        → Reads (m >>= k) (λ t. and_then (f t) (λ a. g a t))
    unfolding ◌>>=◌
    bind-Reads {m = m} g r s c = after_read g s c.tables c.faults (m c) (r c)

    after_read_write :
        (g : A → T → Result E (B × T)) (s : (a : A) → Writes (k a) (g a)) (t : T) (fs : List Bool)
        (x : Result E A × Conn T)
        → (x.1.tables ≡ t)
          × (fs ≡ [] → (x.1.faults ≡ []) × (x.0 ≡ f t))
          × ((a : A) → x.0 ≡ ok a → f t ≡ ok a)
        → (fs ≡ []
            → ((on_ok x k).1.faults ≡ [])
              × ((on_ok x k).0 ≡ answered (and_then (f t) (λ a. g a t))))
          × ((b : B)
              → (on_ok x k).0 ≡ ok b
              → and_then (f t) (λ a. g a t) ≡ ok (b, (on_ok x k).1.tables))
          × ((d : E) → (on_ok x k).0 ≡ err d → (on_ok x k).1.tables ≡ t)
    after_read_write g s t fs (ok a, c) h =
        let (clear, right, same) = s a c in
        let e = ap (λ r. and_then r (λ a. g a t)) (h.2 a refl) in
        (
          (λ none_left. (
            (clear (h.1 none_left).0).0,
            (clear (h.1 none_left).0).1 ∙ ap (λ u. answered (g a u)) h.0 ∙ sym (ap answered e),
          )),
          (λ b q. e ∙ ap (g a) (sym h.0) ∙ right b q),
          λ d q. same d q ∙ h.0,
        )
    after_read_write g s t fs (err d, c) h = (
      (λ none_left.
          ((h.1 none_left).0, ap (λ r. answered (and_then r (λ a. g a t))) (h.1 none_left).1)),
      (λ b q. cc),
      λ d q. h.0,
    )

    pub bind-Writes :
        {m : M T E A} (g : A → T → Result E (B × T))
        → Reads m f
        → ((a : A) → Writes (k a) (g a))
        → Writes (m >>= k) (λ t. and_then (f t) (λ a. g a t))
    unfolding ◌>>=◌
    bind-Writes {m = m} g r s c = after_read_write g s c.tables c.faults (m c) (r c)

  -- A loop over rows reads what their decoding gives.
  pub each_row-Reads :
      {R A : Type 0} (e : E) (decode : R → Result E A) (rows : List R)
      → Reads (each_row e decode rows) (λ t. decode_rows decode rows)
  unfolding each_row decode_rows
  each_row-Reads e decode [] = pure-Reads []
  each_row-Reads e decode (r ∷ rows) =
      bind-Reads (λ t. ok tt) (λ _ t. decode_rows decode (r ∷ rows)) (query-Reads e (λ t. tt))
        λ _.
          bind-Reads (λ t. decode r)
            (λ a t. and_then (decode_rows decode rows) λ rest. ok (a ∷ rest))
            (give-Reads (decode r))
            λ a.
              bind-Reads (λ t. decode_rows decode rows) (λ rest t. ok (a ∷ rest))
                (each_row-Reads e decode rows) λ rest. pure-Reads (a ∷ rest)

  -- A query, then a loop over its rows.
  pub rows-Reads :
      {R A : Type 0} (p q e : E) (decode : R → Result E A) (rows : T → List R)
      → Reads
          (query p (λ t. tt) >> (query q rows >>= each_row e decode))
          (λ t. decode_rows decode (rows t))
  rows-Reads p q e decode rows =
      bind-Reads (λ t. ok tt) (λ _ t. decode_rows decode (rows t)) (query-Reads p (λ t. tt))
        λ _.
          bind-Reads (λ t. ok (rows t)) (λ rs t. decode_rows decode rs) (query-Reads q rows)
            (each_row-Reads e decode)

  -- A value that stands for the answer of a write.
  abbrev pub giving : {A B : Type 0} → B → Result E (A × T) → Result E (B × T)
  giving b (ok p) = ok (b, p.1)
  giving b (err e) = err e

  refused :
      {A B : Type 0} (b : B) (r : Result E (A × T)) (d : E)
      → err d ≡ answered r
      → err d ≡ answered (giving b r)
  refused b (ok p) d e = cc
  refused b (err d') d e = cc

  instead :
      {A B : Type 0} (b : B) (t : T) (fs : List Bool) (r : Result E (A × T))
      (x : Result E A × Conn T)
      → (fs ≡ [] → (x.1.faults ≡ []) × (x.0 ≡ answered r))
        × ((a : A) → x.0 ≡ ok a → r ≡ ok (a, x.1.tables))
        × ((d : E) → x.0 ≡ err d → x.1.tables ≡ t)
      → let y = on_ok x (λ _. pure b) in
        (fs ≡ [] → (y.1.faults ≡ []) × (y.0 ≡ answered (giving b r)))
        × ((a : B) → y.0 ≡ ok a → giving b r ≡ ok (a, y.1.tables))
        × ((d : E) → y.0 ≡ err d → y.1.tables ≡ t)
  unfolding pure
  instead {B = B} b t fs r (ok a, c) h =
      let e = ap (giving b) (h.1 a refl) in
      (
        (λ none_left. ((h.0 none_left).0, sym (ap answered e))),
        (λ a q. e ∙ ap (λ v. ok (v, c.tables)) (inside q)),
        λ d q. cc,
      )
  instead {B = B} b t fs r (err d, c) h = (
    (λ none_left. ((h.0 none_left).0, refused b r d (h.0 none_left).1)),
    (λ a q. cc),
    λ d' q. h.2 d refl,
  )

  pub then-Writes :
      {A B : Type 0} {m : M T E A} (f : T → Result E (A × T)) (b : B)
      → Writes m f
      → Writes (m >>= λ _. pure b) (λ t. giving b (f t))
  unfolding ◌>>=◌
  then-Writes {m = m} f b w c = instead b c.tables c.faults (f c.tables) (m c) (w c)

  abbrev pub Tells : {A : Type 0} → M T E A → Conn T → A → Type 0
  Tells m c x = Told c.faults x (m c).0

  pub Reads-Tells :
      {A : Type 0} {m : M T E A} (f : T → Result E A) (c : Conn T) (x : A)
      → Reads m f
      → f c.tables ≡ ok x
      → Tells m c x
  Reads-Tells {m = m} f c x r e =
      told c.faults x (m c).0 (f c.tables) e (λ h. ((r c).1 h).1) (r c).2

  -- What an answer's tables have, the tables after the computation have, if those before it did.
  pub Writes-keeps {κ} :
      {A : Type 0} (P : T → Type κ) (m : M T E A) (f : T → Result E (A × T))
      → Writes m f
      → ((t u : T) (a : A) → P t → f t ≡ ok (a, u) → P u)
      → (c : Conn T) → P c.tables
      → P (m c).1.tables
  Writes-keeps P m f w h c p = elim (Result-cases (m c).0) [
    | inl (a, e) ↦ h c.tables _ a p ((w c).1 a e)
    | inr (d, e) ↦ subst P (sym ((w c).2 d e)) p
  ]

-- A key that a row and its value share stays through the decoding.
module _ {E R A K : Type 0} (decode : R → Result E A) (kr : R → K) (ka : A → K) where
  one_row :
      (k : K) (ks : List K) (x : Result E A) (y : Result E (List A)) (out : List A)
      → ((a : A) → x ≡ ok a → ka a ≡ k)
      → ((o : List A) → y ≡ ok o → map ka o ≡ ks)
      → and_then x (λ a. and_then y λ rest. ok (a ∷ rest)) ≡ ok out
      → map ka out ≡ k ∷ ks
  one_row k ks (ok a) (ok o) out h g e =
      ap (map ka) (sym (inside e)) ∙ ap₂ ◌∷◌ (h a refl) (g o refl)
  one_row k ks (ok a) (err d) out h g e = cc
  one_row k ks (err d) y out h g e = cc

  pub map-decode_rows :
      ((r : R) (a : A) → decode r ≡ ok a → ka a ≡ kr r)
      → (rows : List R) (out : List A) → decode_rows decode rows ≡ ok out
      → map ka out ≡ map kr rows
  unfolding decode_rows
  map-decode_rows h [] out e = ap (map ka) (sym (inside e))
  map-decode_rows h (r ∷ rows) out e =
      one_row (kr r) (map kr rows) (decode r) (decode_rows decode rows) out (h r)
        (map-decode_rows h rows) e
