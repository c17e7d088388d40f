-- ===== src/Sqlite/Runs.antt =====
-- Rules to reason about the methods of the SQLite board, one for each way to build one. No rule
-- assumes that SQLite accepts a statement.
use wyrtloom.Base.{
  ◌≡◌, refl, Bool, true, false, Option, none, some, if◌then◌else◌, ℕ, List, subst, sym, [], ◌∷◌,
}
use wyrtloom.Kanban.{KanbanError, StorageFault}
use wyrtloom.Sqlite.Store.{
  Tables, Board, Result, ok, err, M, pure, fail, ok_or, on_ok, ◌>>=◌, statement,
}

abbrev pub Outcome {ℓ} :
    {A : Type ℓ} → Option Tables → (A → Tables → Type 0) → Result A × Board → Type 0
Outcome S Q (ok a, b) = Q a b.tables × (b.saved ≡ S)
Outcome S Q (err e, b) = b.saved ≡ S

-- From the tables `T`, with `S` saved, the method leaves `S` saved, and if it returns, then with a
-- result and tables of which `Q` holds.
pub record Runs {ℓ} {A : Type ℓ} (S : Option Tables) (T : Tables) (m : M A)
    (Q : A → Tables → Type 0) : Type ℓ where
  pub at : (b : Board) → b.tables ≡ T → b.saved ≡ S → Outcome S Q (m b)

-- The method changes no table, and what it returns satisfies `F`.
abbrev pub Reads {ℓ} : {A : Type ℓ} → Option Tables → Tables → M A → (A → Type 0) → Type ℓ
Reads S T m F = Runs S T m (λ a T'. (T' ≡ T) × F a)

module _ {ℓ} {A : Type ℓ} {S : Option Tables} {T : Tables} {Q : A → Tables → Type 0} where
  pub Runs-pure : (a : A) → Q a T → Runs S T (pure a) Q
  unfolding pure
  Runs-pure a q = record { at = λ b et es. (subst (Q a) (sym et) q, es) }

  pub Runs-fail : (e : KanbanError) → Runs S T (fail e) Q
  unfolding fail
  Runs-fail e = record { at = λ b et es. es }

  pub Runs-if :
      (c : Bool) (m n : M A)
      → (c ≡ true → Runs S T m Q)
      → (c ≡ false → Runs S T n Q)
      → Runs S T (if c then m else n) Q
  Runs-if true m n h k = h refl
  Runs-if false m n h k = k refl

  pub Runs-statement :
      (e : ℕ → StorageFault) (f : Tables → A × Tables)
      → Q (f T).0 (f T).1
      → Runs S T (statement e f) Q
  unfolding statement
  Runs-statement e f q = record { at = λ b et es. go b.faults b et es }
    where
      go :
          (fs : List (Option ℕ)) (b : Board)
          → b.tables ≡ T
          → b.saved ≡ S
          → Outcome S Q (statement e f (record b { faults = fs }))
      go [] b et es = (subst (λ t. Q (f t).0 (f t).1) (sym et) q, es)
      go (none ∷ r) b et es = (subst (λ t. Q (f t).0 (f t).1) (sym et) q, es)
      go (some c ∷ r) b et es = es

module _ {ℓ κ} {A : Type ℓ} {B : Type κ} {S : Option Tables} {Q : B → Tables → Type 0} where
  on_ok-Outcome :
      (R : A → Tables → Type 0) (f : A → M B)
      → ((a : A) (T' : Tables) → R a T' → Runs S T' (f a) Q)
      → (x : Result A × Board) → Outcome S R x
      → Outcome S Q (on_ok x f)
  on_ok-Outcome R f h (ok a, b) (r, es) = (h a b.tables r).at b refl es
  on_ok-Outcome R f h (err e, b) es = es

  pub Runs-bind :
      {T : Tables} (R : A → Tables → Type 0) (m : M A) (f : A → M B)
      → Runs S T m R
      → ((a : A) (T' : Tables) → R a T' → Runs S T' (f a) Q)
      → Runs S T (m >>= f) Q
  unfolding ◌>>=◌
  Runs-bind R m f hm hf = record { at = λ b et es. on_ok-Outcome R f hf (m b) (hm.at b et es) }

  -- After a read the tables are the same.
  pub Runs-read :
      {T : Tables} (F : A → Type 0) (m : M A) (f : A → M B)
      → Reads S T m F
      → ((a : A) → F a → Runs S T (f a) Q)
      → Runs S T (m >>= f) Q
  Runs-read {T} F m f hm hf =
      Runs-bind (λ a T'. (T' ≡ T) × F a) m f hm
        λ a T' r. subst (λ t. Runs S t (f a) Q) (sym r.0) (hf a r.1)

module _ {ℓ} {A : Type ℓ} {S : Option Tables} {T : Tables} (F : A → Type 0) where
  pub Reads-pure : (a : A) → F a → Reads S T (pure a) F
  Reads-pure a q = Runs-pure a (refl, q)

  pub Reads-ok_or :
      (o : Option A) (e : StorageFault) → ((a : A) → o ≡ some a → F a) → Reads S T (ok_or o e) F
  unfolding ok_or
  Reads-ok_or none e h = Runs-fail _
  Reads-ok_or (some a) e h = Reads-pure a (h a refl)

  pub Reads-query :
      (e : ℕ → StorageFault) (g : Tables → A) → F (g T) → Reads S T (statement e (λ t. (g t, t))) F
  Reads-query e g h = Runs-statement e _ (refl, h)

module _ {ℓ} {B : Type ℓ} {S : Option Tables} {Q : B → Tables → Type 0} where
  -- After a write the rest runs on the new tables.
  pub Runs-write :
      {T : Tables} (e : ℕ → StorageFault) (g : Tables → Tables) (f : Unit {0} → M B)
      → Runs S (g T) (f tt) Q
      → Runs S T (statement e (λ t. (tt, g t)) >>= f) Q
  Runs-write {T} e g f h =
      Runs-bind (λ _ T'. T' ≡ g T) _ f (Runs-statement e _ refl)
        λ a T' r. subst (λ t. Runs S t (f tt) Q) (sym r) h

Outcome-mono {ℓ} :
    {A : Type ℓ} (S : Option Tables) (P Q : A → Tables → Type 0) (x : Result A × Board)
    → ((a : A) (t : Tables) → P a t → Q a t)
    → Outcome S P x
    → Outcome S Q x
Outcome-mono S P Q (ok a, b) h o = (h a b.tables o.0, o.1)
Outcome-mono S P Q (err e, b) h o = o

pub Runs-mono {ℓ} :
    {A : Type ℓ} {S : Option Tables} {T : Tables} {m : M A} (P Q : A → Tables → Type 0)
    → ((a : A) (t : Tables) → P a t → Q a t)
    → Runs S T m P
    → Runs S T m Q
Runs-mono {S} {m} P Q h r = record { at = λ b et es. Outcome-mono S P Q (m b) h (r.at b et es) }
