-- ===== src/Base/Sorting.antt =====
-- `sort_by`: a stable sort by a Boolean order, with what it keeps and what it makes.
use Prim.Native.Nat.{suc}
use mathlib.Core.Path.{◌≡◌, refl, sym, ◌∙◌, ap}
use mathlib.Core.Logic.{inl, inr}
use mathlib.Core.Bool.{Bool, true, false, ◌||◌}
use mathlib.Core.List.{List, [], ◌∷◌, Perm, foldr, map}
use mathlib.Core.List.Perm
use native.Mathlib.Omega.{arith}
use wyrtloom.Base.Tests.{if◌then◌else◌, Bool-cases}
use wyrtloom.Base.Lists.{any, All, length}

module _ {ℓ} {A : Type ℓ} (le : A → A → Bool) where
  unfoldable pub insert_by : A → List A → List A
  insert_by x [] = x ∷ []
  insert_by x (y ∷ ys) = if le x y then x ∷ y ∷ ys else y ∷ insert_by x ys

  unfoldable pub sort_by : List A → List A
  unfolding insert_by
  sort_by [] = []
  sort_by (x ∷ xs) = insert_by x (sort_by xs)

  any-insert_by : (p : A → Bool) (x : A) (ys : List A) → any p (insert_by x ys) ≡ (p x || any p ys)
  unfolding insert_by
  any-insert_by p x [] = ground arith
  any-insert_by p x (y ∷ ys) = ground (arith, any-insert_by p x ys)

  -- A test finds a member after sorting exactly when it finds one before.
  pub any-sort_by : (p : A → Bool) (xs : List A) → any p (sort_by xs) ≡ any p xs
  unfolding sort_by
  any-sort_by p [] = refl
  any-sort_by p (x ∷ xs) = ground (arith, any-insert_by p x (sort_by xs), any-sort_by p xs)

  length-insert_by : (x : A) (ys : List A) → length (insert_by x ys) ≡ suc (length ys)
  unfolding insert_by
  length-insert_by x [] = refl
  length-insert_by x (y ∷ ys) = ground (arith, length-insert_by x ys)

  pub length-sort_by : (xs : List A) → length (sort_by xs) ≡ length xs
  unfolding sort_by
  length-sort_by [] = refl
  length-sort_by (x ∷ xs) = length-insert_by x (sort_by xs) ∙ ap suc (length-sort_by xs)

  insert_by-Perm : (x : A) (ys : List A) → Perm (insert_by x ys) (x ∷ ys)
  unfolding insert_by
  insert_by-Perm x [] = Perm.rfl
  insert_by-Perm x (y ∷ ys) = elim (Bool-cases (le x y)) [
    | inl first ↦ rw first Perm.rfl
    | inr later ↦ rw later (Perm.trans (Perm.cons y (insert_by-Perm x ys)) (Perm.swap x y ys))
  ]

  pub sort_by-Perm : (xs : List A) → Perm (sort_by xs) xs
  unfolding sort_by
  sort_by-Perm [] = Perm.rfl
  sort_by-Perm (x ∷ xs) = Perm.trans (insert_by-Perm x (sort_by xs)) (Perm.cons x (sort_by-Perm xs))

  -- Every member stands before all that follow it.
  abbrev pub Ascending : List A → Type 0
  Ascending [] = Unit
  Ascending (x ∷ xs) = All (λ y. le x y ≡ true) xs × Ascending xs

  module _ (total : (x y : A) → le x y ≡ false → le y x ≡ true)
      (trans : (x y z : A) → le x y ≡ true → le y z ≡ true → le x z ≡ true) where
    All-trans :
        (x y : A) (ys : List A)
        → le x y ≡ true
        → All (λ z. le y z ≡ true) ys
        → All (λ z. le x z ≡ true) ys
    All-trans x y [] h a = tt
    All-trans x y (z ∷ zs) h a = (trans x y z h a.0, All-trans x y zs h a.1)

    All-insert_by :
        (x y : A) (ys : List A)
        → le x y ≡ true
        → All (λ z. le x z ≡ true) ys
        → All (λ z. le x z ≡ true) (insert_by y ys)
    unfolding insert_by
    All-insert_by x y [] h a = (h, tt)
    All-insert_by x y (z ∷ zs) h a = elim (Bool-cases (le y z)) [
      | inl first ↦ rw first (h, a)
      | inr later ↦ rw later (a.0, All-insert_by x y zs h a.1)
    ]

    insert_by-Ascending : (x : A) (ys : List A) → Ascending ys → Ascending (insert_by x ys)
    unfolding insert_by
    insert_by-Ascending x [] h = (tt, tt)
    insert_by-Ascending x (y ∷ ys) h = elim (Bool-cases (le x y)) [
      | inl first ↦ rw first ((first, All-trans x y ys first h.0), h)
      | inr later ↦
          rw later (All-insert_by y x ys (total x y later) h.0, insert_by-Ascending x ys h.1)
    ]

    pub sort_by-Ascending : (xs : List A) → Ascending (sort_by xs)
    unfolding sort_by
    sort_by-Ascending [] = tt
    sort_by-Ascending (x ∷ xs) = insert_by-Ascending x (sort_by xs) (sort_by-Ascending xs)

    -- Sorting forgets in what order the members came, where the order tells them apart.
    module _ (antisym : (x y : A) → le x y ≡ true → le y x ≡ true → x ≡ y) where
      insert_by_comm :
          (x y : A) (zs : List A) → insert_by x (insert_by y zs) ≡ insert_by y (insert_by x zs)
      unfolding insert_by
      insert_by_comm x y [] = elim (Bool-cases (le x y)) [
        | inl h ↦ elim (Bool-cases (le y x)) [
          | inl k ↦ let e = antisym x y h k in ground (arith, h, k, e)
          | inr k ↦ ground (arith, h, k)
        ]
        | inr h ↦ ground (arith, h, total x y h)
      ]
      insert_by_comm x y (z ∷ zs) = elim (Bool-cases (le x y)) [
        | inl h ↦ elim (Bool-cases (le y x)) [
          | inl k ↦
              let e = antisym x y h k in
              ap (λ w. insert_by w (insert_by y (z ∷ zs))) e
              ∙ ap (λ w. insert_by y (insert_by w (z ∷ zs))) (sym e)
          | inr k ↦
              ground (arith, h, k, insert_by_comm x y zs, trans x y z, trans y z x, trans x z y)
        ]
        | inr h ↦
            ground
              (arith, h, total x y h, insert_by_comm x y zs, trans x y z, trans y x z, trans y z x)
      ]

      sort_by-foldr : (xs : List A) → sort_by xs ≡ foldr insert_by [] xs
      unfolding sort_by
      sort_by-foldr [] = refl
      sort_by-foldr (x ∷ xs) = ap (insert_by x) (sort_by-foldr xs)

      pub sort_by-eq_of_Perm : IsSet A → {xs ys : List A} → Perm xs ys → sort_by xs ≡ sort_by ys
      sort_by-eq_of_Perm set {xs} {ys} p =
          sort_by-foldr xs
          ∙ Perm.foldr-eq (hlevel) insert_by insert_by_comm p []
          ∙ sym (sort_by-foldr ys)

-- Sorting by a key sorts the keys.
module _ {ℓ κ} {A : Type ℓ} {B : Type κ} (key : A → B) (le : B → B → Bool) where
  map-insert_by :
      (x : A) (ys : List A)
      → map key (insert_by (λ a b. le (key a) (key b)) x ys) ≡ insert_by le (key x) (map key ys)
  unfolding insert_by
  map-insert_by x [] = refl
  map-insert_by x (y ∷ ys) = ground (arith, map-insert_by x ys)

  pub map-sort_by :
      (xs : List A) → map key (sort_by (λ a b. le (key a) (key b)) xs) ≡ sort_by le (map key xs)
  unfolding sort_by
  map-sort_by [] = refl
  map-sort_by (x ∷ xs) =
      map-insert_by x (sort_by (λ a b. le (key a) (key b)) xs)
      ∙ ap (insert_by le (key x)) (map-sort_by xs)
