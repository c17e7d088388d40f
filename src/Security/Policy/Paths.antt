-- ===== src/Security/Policy/Paths.antt =====
-- What a granted path looks like, component by component.
use wyrtloom.Base.{
  ℕ, ◌≡◌, ◌↔◌, inl, inr, refl, sym, ap, ◌∙◌, arith, Bool, true, false, List, [], ◌∷◌, ◌++◌, ◌==◌,
  any, if◌then◌else◌, Bool-cases,
}
use wyrtloom.Canon.{Bytes}
use mathlib.Core.List.{append_assoc, append-nil, Mem, mem-cons_self, mem-cons_of_mem}
use wyrtloom.Security.Policy.{
  bytes_eq, starts_with, contains_dots, trim_end_slashes, under_prefix, check_file_path,
}

pub bytes_eq_iff : (s t : Bytes) → (bytes_eq s t ≡ true) ↔ (s ≡ t)
unfolding bytes_eq
bytes_eq_iff [] [] = ground arith
bytes_eq_iff [] (b ∷ t) = ground arith
bytes_eq_iff (a ∷ s) [] = ground arith
bytes_eq_iff (a ∷ s) (b ∷ t) = ground (arith, bytes_eq_iff s t)

starts_with_lem : (s p : Bytes) → starts_with s p ≡ true → (rest : Bytes) × (s ≡ p ++ rest)
unfolding starts_with
starts_with_lem s [] h = (s, refl)
starts_with_lem [] (b ∷ p) h = cc
starts_with_lem (a ∷ s) (b ∷ p) h =
    let (rest, e) = starts_with_lem s p (ground (arith, h)) in (rest, ground (arith, e, h))

-- The components of a path: the texts between its slashes.
pub components : Bytes → List Bytes
components [] = [] ∷ []
components (a ∷ s) = elim (components s) [
  | [] ↦ [] ∷ []
  | c ∷ cs ↦ if a == b'/' then [] ∷ c ∷ cs else (a ∷ c) ∷ cs
]

components_cases : (s : Bytes) → (c : Bytes) × (cs : List Bytes) × (components s ≡ c ∷ cs)
unfolding components
components_cases [] = ([], [], refl)
components_cases (a ∷ s) =
    let (c, cs, e) = components_cases s in
    elim (Bool-cases (a == b'/')) [
      | inl slash ↦ ([], c ∷ cs, ground (arith, e, slash))
      | inr other ↦ (a ∷ c, cs, ground (arith, e, other))
    ]

-- Behind a slash a new component begins.
components-append :
    (p rest : Bytes) → components (p ++ b'/' ∷ rest) ≡ components p ++ components rest
unfolding components
components-append [] rest = let (c, cs, e) = components_cases rest in ground (arith, e)
components-append (a ∷ p) rest =
    let (c, cs, e) = components_cases p in
    let ih : components (p ++ b'/' ∷ rest) ≡ c ∷ (cs ++ components rest) =
      components-append p rest ∙ ap (λ z. z ++ components rest) e in
    ground (arith, e, ih)

-- A text begins with its first component.
first_component :
    (s c : Bytes) (cs : List Bytes) → components s ≡ c ∷ cs → (rest : Bytes) × (s ≡ c ++ rest)
unfolding components
first_component [] c cs e = ([], ground (arith, e))
first_component (a ∷ s) c cs e =
    let (d, ds, f) = components_cases s in
    let (rest, g) = first_component s d ds f in
    elim (Bool-cases (a == b'/')) [
      | inl slash ↦ (a ∷ s, ground (arith, e, f, slash))
      | inr other ↦ (rest, ground (arith, e, f, g, other))
    ]

abbrev pub is_dots : Bytes → Bool
is_dots c = bytes_eq c (b'.' ∷ b'.' ∷ [])

dots_head :
    (a : ℕ) (d rest : Bytes)
    → is_dots (a ∷ d) ≡ true
    → starts_with (a ∷ (d ++ rest)) (b'.' ∷ b'.' ∷ []) ≡ true
unfolding bytes_eq starts_with
dots_head a [] rest h = ground (arith, h)
dots_head a (b ∷ []) rest h = ground (arith, h)
dots_head a (b ∷ c ∷ d) rest h = ground (arith, h)

-- A component ".." is seen by the search for "..".
dots_found : (s : Bytes) → any is_dots (components s) ≡ true → contains_dots s ≡ true
unfolding components contains_dots bytes_eq
dots_found [] h = ground arith
dots_found (a ∷ s) h =
    let (d, ds, f) = components_cases s in
    let (rest, g) = first_component s d ds f in
    let ih : any is_dots (d ∷ ds) ≡ true → contains_dots s ≡ true =
      λ k. dots_found s (ap (any is_dots) f ∙ k) in
    elim (Bool-cases (a == b'/')) [
      | inl slash ↦ ground (arith, h, f, slash, ih)
      | inr other ↦ elim (Bool-cases (is_dots (a ∷ d))) [
        | inl dots ↦ let k = dots_head a d rest dots in ground (arith, g, k)
        | inr clean ↦ ground (arith, h, f, other, clean, ih)
      ]
    ]

-- One list of components begins with another.
abbrev pub Begins : List Bytes → List Bytes → Type 0
Begins ps cs = (rest : List Bytes) × (cs ≡ ps ++ rest)

under_prefix-Begins :
    (path prefix : Bytes)
    → under_prefix path prefix ≡ true
    → Begins (components (trim_end_slashes prefix)) (components path)
unfolding under_prefix
under_prefix-Begins path prefix h =
    let p = trim_end_slashes prefix in
    elim (Bool-cases (bytes_eq path p)) [
      | inl same ↦
          ([], ap components ((bytes_eq_iff path p).0 same) ∙ sym (append-nil (components p)))
      | inr other ↦
          let (rest, e) = starts_with_lem path (p ++ b'/' ∷ []) (ground (arith, h, other)) in
          (
            components rest,
            ap components (e ∙ append_assoc p (b'/' ∷ []) rest) ∙ components-append p rest,
          )
    ]

some_prefix :
    (path : Bytes) (prefixes : List Bytes)
    → any (under_prefix path) prefixes ≡ true
    → (prefix : Bytes) × Mem prefix prefixes
      × Begins (components (trim_end_slashes prefix)) (components path)
some_prefix path [] h = cc
some_prefix path (p ∷ ps) h = elim (Bool-cases (under_prefix path p)) [
  | inl found ↦ (p, mem-cons_self, under_prefix-Begins path p found)
  | inr other ↦
      let (q, m, b) = some_prefix path ps (ground (arith, h, other)) in (q, mem-cons_of_mem p m, b)
]

-- A path that the policy's check passes has no component "..", and its components begin with those
-- of one of the prefixes, which is taken without the slashes at its end.
pub check_file_path-confines :
    (path : Bytes) (prefixes : List Bytes)
    → check_file_path path prefixes ≡ true
    → (any is_dots (components path) ≡ false)
      × (prefix : Bytes) × Mem prefix prefixes
      × Begins (components (trim_end_slashes prefix)) (components path)
unfolding check_file_path
check_file_path-confines path prefixes h = elim (Bool-cases (contains_dots path)) [
  | inl dots ↦ absurd (ground (arith, h, dots))
  | inr clean ↦
      let good : any is_dots (components path) ≡ false =
        elim (Bool-cases (any is_dots (components path))) [
          | inl bad ↦ absurd (ground (arith, dots_found path bad, clean))
          | inr good ↦ good
        ] in
      let (prefix, m, b) = some_prefix path prefixes (ground (arith, h, clean)) in
      (good, prefix, m, b)
]
