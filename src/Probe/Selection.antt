-- ===== src/Probe/Selection.antt =====
-- Which dark concepts are probed.
use wyrtloom.Base.{
  ℕ, zero, suc, ◌≡◌, inl, inr, refl, sym, ap, ◌∙◌, subst, arith, Bool, true, false, not, ◌&&◌,
  String, List, [], ◌∷◌, ◌++◌, take, keep, any, length, length-take, any-append, any-keep, any-and,
  str_eq, str_eq_iff, insert_by, str_le, str_le_total, str_le_trans, str_le_antisym, String_set,
  sort_by, any-sort_by, length-sort_by, sort_by-eq_of_Perm, if◌then◌else◌, Bool-cases,
}
use Prim.Native.Nat.{min}
use mathlib.Core.List.{Perm}
use wyrtloom.F64.{F64}
use wyrtloom.Probe.{
  ConceptId, MasteryMode, strict, sampled, hybrid, selected, refused, faded, contains, by_mode,
  is_faded, select_probes,
}

-- The choice does not depend on the order in which the dark concepts are listed.
pub select_probes-Perm :
    (f : F64) (calibration : f.Num) (mode : MasteryMode) (criticality : List ConceptId)
    {dark dark' : List ConceptId}
    → Perm dark dark'
    → select_probes f calibration dark mode criticality
      ≡ select_probes f calibration dark' mode criticality
unfolding select_probes
select_probes-Perm f calibration mode criticality p =
    ap
      (λ sorted.
        if is_faded f calibration
        then refused faded
        else selected (by_mode mode criticality sorted))
      (sort_by-eq_of_Perm str_le str_le_total str_le_trans str_le_antisym String_set p)

-- What the mode promises of the chosen concepts, at a concept: all the dark ones; or as many of them
-- as the sample is large; or each critical one, and of the others as many as the sample is large.
abbrev pub Chosen :
    MasteryMode → List ConceptId → List ConceptId → List ConceptId → ConceptId → Type 0
Chosen strict criticality dark chosen c = contains chosen c ≡ contains dark c
Chosen (sampled k) criticality dark chosen c = length chosen ≡ min k (length dark)
Chosen (hybrid k) criticality dark chosen c =
    ((contains chosen c && contains criticality c) ≡ (contains dark c && contains criticality c))
    × (length (keep (λ d. not (contains criticality d)) chosen)
        ≡ min k (length (keep (λ d. not (contains criticality d)) dark)))

any-take :
    (p : String → Bool) (n : ℕ) (xs : List String) → any p (take n xs) ≡ true → any p xs ≡ true
any-take p zero xs h = cc
any-take p (suc n) [] h = cc
any-take p (suc n) (x ∷ xs) h = ground (arith, h, any-take p n xs)

length-keep_le :
    (q : String → Bool) (x : String) (ys : List String)
    → length (keep q (insert_by str_le x ys)) ≡ length (keep q (x ∷ ys))
unfolding insert_by
length-keep_le q x [] = refl
length-keep_le q x (y ∷ ys) = ground (arith, length-keep_le q x ys)

length-keep-sort :
    (q : String → Bool) (xs : List String)
    → length (keep q (sort_by str_le xs)) ≡ length (keep q xs)
unfolding sort_by
length-keep-sort q [] = refl
length-keep-sort q (x ∷ xs) =
    ground (arith, length-keep_le q x (sort_by str_le xs), length-keep-sort q xs)

keep-append : (q : String → Bool) (xs ys : List String) → keep q (xs ++ ys) ≡ keep q xs ++ keep q ys
keep-append q [] ys = refl
keep-append q (x ∷ xs) ys = ground (arith, keep-append q xs ys)

-- What stays of a part that fails the test, and of a prefix of the part that passes it.
keep-keep-not : (q : String → Bool) (xs : List String) → keep (λ x. not (q x)) (keep q xs) ≡ []
keep-keep-not q [] = refl
keep-keep-not q (x ∷ xs) = ground (arith, keep-keep-not q xs)

keep-take-keep :
    (q : String → Bool) (n : ℕ) (xs : List String)
    → keep q (take n (keep q xs)) ≡ take n (keep q xs)
keep-take-keep q zero xs = refl
keep-take-keep q (suc n) [] = refl
keep-take-keep q (suc n) (x ∷ xs) = elim (Bool-cases (q x)) [
  | inl h ↦ ground (arith, h, keep-take-keep q n xs)
  | inr h ↦ ground (arith, h, keep-take-keep q (suc n) xs)
]

by_mode-Chosen :
    (mode : MasteryMode) (criticality dark : List ConceptId) (c : ConceptId)
    → ((contains (by_mode mode criticality (sort_by str_le dark)) c && not (contains dark c))
        ≡ false)
      × Chosen mode criticality dark (by_mode mode criticality (sort_by str_le dark)) c
unfolding by_mode
by_mode-Chosen strict criticality dark c = ground (arith, any-sort_by str_le (str_eq c) dark)
by_mode-Chosen (sampled k) criticality dark c = ground (
  arith,
  any-sort_by str_le (str_eq c) dark,
  any-take (str_eq c) k (sort_by str_le dark),
  length-take k (sort_by str_le dark),
  length-sort_by str_le dark,
)
by_mode-Chosen (hybrid k) criticality dark c =
    let sorted = sort_by str_le dark in
    let same = λ (x : ConceptId) (e : str_eq c x ≡ true). sym ((str_eq_iff c x).0 e) in
    let critical = contains criticality in
    let other = λ (d : ConceptId). not (critical d) in
    let a = any-append (str_eq c) (keep critical sorted) (take k (keep other sorted)) in
    let b = any-keep (str_eq c) critical sorted ∙ any-and c (str_eq c) critical sorted same in
    let o = any-keep (str_eq c) other sorted ∙ any-and c (str_eq c) other sorted same in
    let t = any-take (str_eq c) k (keep other sorted) in
    let s = any-sort_by str_le (str_eq c) dark in
    let n : length (keep other (keep critical sorted ++ take k (keep other sorted)))
        ≡ min k (length (keep other dark)) =
      ap length (keep-append other (keep critical sorted) (take k (keep other sorted)))
      ∙ ap (λ (l : List ConceptId). length (l ++ keep other (take k (keep other sorted))))
          (keep-keep-not critical sorted)
      ∙ ap length (keep-take-keep other k sorted)
      ∙ length-take k (keep other sorted)
      ∙ ap (min k) (length-keep-sort other dark) in
    (ground (arith, a, b, o, t, s), (ground (arith, a, b, o, t, s), n))

-- Where probing has not faded, only dark concepts are chosen, and those that the mode promises.
pub select_probes-Chosen :
    (f : F64) (calibration : f.Num) (dark : List ConceptId) (mode : MasteryMode)
    (criticality chosen : List ConceptId) (c : ConceptId)
    → select_probes f calibration dark mode criticality ≡ selected chosen
    → ((contains chosen c && not (contains dark c)) ≡ false) × Chosen mode criticality dark chosen c
unfolding select_probes
select_probes-Chosen f calibration dark mode criticality chosen c h =
    elim (Bool-cases (is_faded f calibration)) [
      | inl gone ↦ absurd (ground (arith, gone, h))
      | inr due ↦
          let e : by_mode mode criticality (sort_by str_le dark) ≡ chosen =
            ground (arith, due, h) in
          subst
            (λ l.
              ((contains l c && not (contains dark c)) ≡ false) × Chosen mode criticality dark l c)
            e (by_mode-Chosen mode criticality dark c)
    ]
