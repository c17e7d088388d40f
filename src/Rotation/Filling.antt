-- ===== src/Rotation/Filling.antt =====
-- What an assignment holds, and when there is none.
use wyrtloom.Base.{
  ℕ, suc, zero, ◌+◌, ◌/◌, ◌%◌, ◌^◌, ◌<◌, ◌≡◌, refl, sym, ap, subst, arith, Bool, true, false, ◌&&◌,
  none, some, List, [], ◌∷◌, map, any, All, get_elem?, length, Bool-cases, Option-cases, inl, inr,
  ◌↔◌, ◌⊎◌, &&-true, ◌++◌,
}
use Prim.Native.Nat.{max}
use native.Mathlib.Nat.{mod-lt, mod-eq_of_lt, div-le_self}
use mathlib.Core.Logic.Or
use mathlib.Core.Bool.{Bool-set}
use mathlib.Core.List.{not-mem-nil, eq-or-mem_of_mem-cons, Mem, mem-cons_self, mem-cons_of_mem}
use wyrtloom.Kanban.{ActorId}
use wyrtloom.Rotation.{
  Role, ordinal, role_eq, criticality_eq, HumanOverride, specifier, designer, developer, tester,
  Criticality, Actor, RotationPolicy, requires_human, RotationItem, no_roles, empty_roster,
  no_human_available, Assignment, Scheduled, scheduled, rejected, panicked, first_human, pick,
  add_slot, fill, is_empty, assign,
}

-- Some override is for the role at the item's criticality.
abbrev pub Pinned : RotationPolicy → Criticality → Role → Type 0
Pinned p crit role = (o : HumanOverride) × Mem o p.overrides × (o.role ≡ role) × (o.when ≡ crit)

abbrev pub NoHuman : List Actor → Type 0
NoHuman roster = All (λ (x : Actor). x.is_human ≡ false) roster

-- The first human of the roster has this id.
abbrev pub FirstHuman : List Actor → ActorId → Type 0
FirstHuman roster a =
    (before : List Actor) × (x : Actor) × (after : List Actor) × (roster ≡ before ++ x ∷ after)
    × NoHuman before
    × (x.is_human ≡ true)
    × (x.id ≡ a)

-- The roles in the order in which their offsets grow.
abbrev pub turns : List Role
turns = specifier ∷ designer ∷ developer ∷ tester ∷ []

-- The actor with this id sits where the number of rotation steps so far, and the role's place among
-- the roles, come to around the roster.
abbrev pub Sits : RotationPolicy → ℕ → Role → ActorId → Type 0
Sits p cycle role a =
    (k : ℕ) × (x : Actor) × (get_elem? turns k ≡ some role)
    × (get_elem? p.roster ((cycle / max p.cadence 1 + k) % length p.roster) ≡ some x)
    × (x.id ≡ a)

-- A pinned role is filled by the first human, any other by rotation.
abbrev pub Fits : RotationPolicy → Criticality → ℕ → Role × ActorId → Type 0
Fits p crit cycle (role, a) =
    (Pinned p crit role × FirstHuman p.roster a) ⊎ ((Pinned p crit role → ⊥) × Sits p cycle role a)

abbrev pub role_of : Role × ActorId → Role
role_of (r, a) = r

not_both : {b : Bool} → b ≡ false → b ≡ true → ⊥
not_both h k = cc

-- What each answer means.
abbrev pub Answers : RotationPolicy → RotationItem → ℕ → Scheduled Assignment → Type 0
Answers p item cycle (scheduled a) =
    (a.origin_task ≡ item.origin_task)
    × (map role_of a.slots ≡ p.eligible_roles)
    × All (Fits p item.criticality cycle) a.slots
Answers p item cycle (rejected no_roles) = p.eligible_roles ≡ []
Answers p item cycle (rejected empty_roster) = p.roster ≡ []
Answers p item cycle (rejected (no_human_available role)) =
    Mem role p.eligible_roles × Pinned p item.criticality role × NoHuman p.roster
Answers p item cycle panicked = ⊥

role_eq_iff : (r q : Role) → (role_eq r q ≡ true) ↔ (r ≡ q)
unfolding role_eq
role_eq_iff r q = ground arith

criticality_eq_iff : (r q : Criticality) → (criticality_eq r q ≡ true) ↔ (r ≡ q)
unfolding criticality_eq
criticality_eq_iff r q = ground arith

any-Mem {ℓ} :
    {A : Type ℓ} (p : A → Bool) (xs : List A) → any p xs ≡ true → (x : A) × Mem x xs × (p x ≡ true)
any-Mem p [] h = cc
any-Mem p (x ∷ xs) h = elim (Bool-cases (p x)) [
  | inl e ↦ (x, mem-cons_self, e)
  | inr e ↦ let (y, m, k) = any-Mem p xs (ground (arith, h, e)) in (y, mem-cons_of_mem x m, k)
]

Mem-any {ℓ} :
    {A : Type ℓ} (p : A → Bool) (xs : List A) (x : A) → Mem x xs → p x ≡ true → any p xs ≡ true
Mem-any p [] x m h = absurd (not-mem-nil m)
Mem-any p (y ∷ xs) x m h =
    Or.elim (Bool-set (any p (y ∷ xs)) true) (eq-or-mem_of_mem-cons m)
      (λ e. let k = ap p e in ground (arith, h, k)) (λ k. ground (arith, Mem-any p xs x k h))

requires_human-Pinned :
    (p : RotationPolicy) (crit : Criticality) (role : Role)
    → (requires_human p role crit ≡ true) ↔ Pinned p crit role
unfolding requires_human
requires_human-Pinned p crit role =
    let test : HumanOverride → Bool = λ o. role_eq o.role role && criticality_eq o.when crit in
    (
      λ h.
          let (o, m, e) = any-Mem test p.overrides h in
          let both = &&-true (role_eq o.role role) (criticality_eq o.when crit) e in
          (o, m, (role_eq_iff o.role role).0 both.0, (criticality_eq_iff o.when crit).0 both.1),
      λ (o, m, r, w).
          let a = (role_eq_iff o.role role).1 r in
          let b = (criticality_eq_iff o.when crit).1 w in
          Mem-any test p.overrides o m (ground (arith, a, b)),
    )

-- The role's offset is its place.
turns-ordinal : (r : Role) → get_elem? turns (ordinal r) ≡ some r
unfolding ordinal
turns-ordinal specifier = refl
turns-ordinal designer = refl
turns-ordinal developer = refl
turns-ordinal tester = refl

pub ordinal_lt : (r : Role) → ordinal r < 4
unfolding ordinal
ordinal_lt r = ground arith

first_human-none : (roster : List Actor) → first_human roster ≡ none → NoHuman roster
unfolding first_human
first_human-none [] h = tt
first_human-none (x ∷ xs) h = elim (Bool-cases x.is_human) [
  | inl e ↦ absurd (ground (arith, h, e))
  | inr e ↦ (e, first_human-none xs (ground (arith, h, e)))
]

first_human-some :
    (roster : List Actor) (a : ActorId) → first_human roster ≡ some a → FirstHuman roster a
unfolding first_human
first_human-some [] a h = cc
first_human-some (x ∷ xs) a h = elim (Bool-cases x.is_human) [
  | inl e ↦ ([], x, xs, refl, tt, e, ground (arith, h, e))
  | inr e ↦
      let (before, y, after, q, none_before, human, id) =
        first_human-some xs a (ground (arith, h, e)) in
      (x ∷ before, y, after, ap (λ l. x ∷ l) q, (e, none_before), human, id)
]

get_elem?-lt {ℓ} : {A : Type ℓ} (xs : List A) (i : ℕ) → i < length xs → (get_elem? xs i ≡ none) → ⊥
get_elem?-lt [] i h e = omega (arith, h)
get_elem?-lt (x ∷ xs) zero h e = cc
get_elem?-lt (x ∷ xs) (suc i) h e = get_elem?-lt xs i (omega (arith, h)) e

-- One role's answer: an actor that fits, or that the roster has no human.
abbrev Picked : RotationPolicy → Criticality → ℕ → Role → Scheduled ActorId → Type 0
Picked p crit cycle role (scheduled a) = Fits p crit cycle (role, a)
Picked p crit cycle role (rejected e) =
    (e ≡ no_human_available role) × Pinned p crit role × NoHuman p.roster
Picked p crit cycle role panicked = ⊥

module _ (p : RotationPolicy) (crit : Criticality) (cycle : ℕ) where
  -- What the loop over the roles answers.
  abbrev Filled : List Role → Scheduled (List (Role × ActorId)) → Type 0
  Filled roles (scheduled slots) = (map role_of slots ≡ roles) × All (Fits p crit cycle) slots
  Filled roles (rejected no_roles) = ⊥
  Filled roles (rejected empty_roster) = ⊥
  Filled roles (rejected (no_human_available role)) =
      Mem role roles × Pinned p crit role × NoHuman p.roster
  Filled roles panicked = ⊥

module _ (p : RotationPolicy) (crit : Criticality) (cycle : ℕ) (few : cycle + 4 < 2 ^ 64)
    (staffed : 0 < length p.roster) where
  no_wrap :
      (role : Role)
      → (cycle / max p.cadence 1 + ordinal role) % 2 ^ 64 ≡ cycle / max p.cadence 1 + ordinal role
  no_wrap role =
      mod-eq_of_lt (omega (arith, few, ordinal_lt role, div-le_self cycle (max p.cadence 1)))

  pick-pinned :
      (role : Role)
      → requires_human p role crit ≡ true
      → Picked p crit cycle role (pick p crit (cycle / max p.cadence 1) role)
  unfolding pick
  pick-pinned role h = elim (Option-cases (first_human p.roster)) [
    | inl e ↦
        rw h (rw e (refl, (requires_human-Pinned p crit role).0 h, first_human-none p.roster e))
    | inr (a, e) ↦
        rw h (rw e (inl ((requires_human-Pinned p crit role).0 h, first_human-some p.roster a e)))
  ]

  pick-turn :
      (role : Role)
      → requires_human p role crit ≡ false
      → Picked p crit cycle role (pick p crit (cycle / max p.cadence 1) role)
  unfolding pick
  pick-turn role h =
      let place = (cycle / max p.cadence 1 + ordinal role) % length p.roster in
      let same = ap (λ n. n % length p.roster) (no_wrap role) in
      elim (Option-cases (get_elem? p.roster place)) [
        | inl e ↦ absurd (get_elem?-lt p.roster place (mod-lt _ staffed) e)
        | inr (a, e) ↦ rw h (
            rw same (
              rw e (
                inr (
                  (λ k. not_both h ((requires_human-Pinned p crit role).1 k)),
                  (ordinal role, a, turns-ordinal role, e, refl),
                ))))
      ]

  pick-Picked :
      (role : Role) → Picked p crit cycle role (pick p crit (cycle / max p.cadence 1) role)
  pick-Picked role = elim (Bool-cases (requires_human p role crit)) [
    | inl h ↦ pick-pinned role h
    | inr h ↦ pick-turn role h
  ]

  one_more :
      (role : Role) (roles : List Role) (now : Scheduled ActorId)
      (rest : Scheduled (List (Role × ActorId)))
      → Picked p crit cycle role now
      → Filled p crit cycle roles rest
      → Filled p crit cycle (role ∷ roles) (elim now [
        | scheduled id ↦ add_slot role id rest
        | rejected e ↦ rejected e
        | panicked ↦ panicked
      ])
  one_more role roles (scheduled id) (scheduled slots) h k = (ap (λ l. role ∷ l) k.0, (h, k.1))
  one_more role roles (scheduled id) (rejected no_roles) h k = k
  one_more role roles (scheduled id) (rejected empty_roster) h k = k
  one_more role roles (scheduled id) (rejected (no_human_available r)) h k =
      (mem-cons_of_mem role k.0, k.1, k.2)
  one_more role roles (scheduled id) panicked h k = k
  one_more role roles (rejected e) rest h k =
      subst (λ x. Filled p crit cycle (role ∷ roles) (rejected x)) (sym h.0)
        (mem-cons_self, h.1, h.2)
  one_more role roles panicked rest h k = h

  fill-Filled :
      (roles : List Role) → Filled p crit cycle roles (fill p crit (cycle / max p.cadence 1) roles)
  unfolding fill
  fill-Filled [] = (refl, tt)
  fill-Filled (role ∷ roles) = one_more role roles _ _ (pick-Picked role) (fill-Filled roles)

is_empty-nil {ℓ} : {A : Type ℓ} (xs : List A) → is_empty xs ≡ true → xs ≡ []
is_empty-nil [] h = refl
is_empty-nil (x ∷ xs) h = cc

is_empty-length {ℓ} : {A : Type ℓ} (xs : List A) → is_empty xs ≡ false → 0 < length xs
is_empty-length [] h = cc
is_empty-length (x ∷ xs) h = omega arith

Filled-Answers :
    (p : RotationPolicy) (item : RotationItem) (cycle : ℕ)
    (slots : Scheduled (List (Role × ActorId)))
    → Filled p item.criticality cycle p.eligible_roles slots
    → Answers p item cycle (elim slots [
      | scheduled slots ↦ scheduled (record { origin_task = item.origin_task; slots = slots })
      | rejected e ↦ rejected e
      | panicked ↦ panicked
    ])
Filled-Answers p item cycle (scheduled slots) h = (refl, h.0, h.1)
Filled-Answers p item cycle (rejected no_roles) h = absurd h
Filled-Answers p item cycle (rejected empty_roster) h = absurd h
Filled-Answers p item cycle (rejected (no_human_available role)) h = h
Filled-Answers p item cycle panicked h = h

-- Where the cycle's number is not near the end of its type, an assignment is of the item's task and
-- gives each eligible role in order one actor: the roster's first human where an override is for the
-- role at the item's criticality, and else the actor whose place is the number of rotation steps so
-- far plus the role's, around the roster. A refusal names what is missing: the roles, the roster, or
-- a human for an eligible role that is so overridden. No lookup goes past the roster.
pub assign-Answers :
    (p : RotationPolicy) (item : RotationItem) (cycle : ℕ)
    → cycle + 4 < 2 ^ 64
    → Answers p item cycle (assign p item cycle)
unfolding assign
assign-Answers p item cycle few =
    let place = cycle / max p.cadence 1 in
    elim (Bool-cases (is_empty p.eligible_roles)) [
      | inl e ↦ rw e (is_empty-nil p.eligible_roles e)
      | inr e ↦ elim (Bool-cases (is_empty p.roster)) [
        | inl f ↦ rw e (rw f (is_empty-nil p.roster f))
        | inr f ↦ rw e (
            rw f (
              Filled-Answers p item cycle (fill p item.criticality place p.eligible_roles) (
                fill-Filled p item.criticality cycle few (is_empty-length p.roster f)
                  p.eligible_roles)))
      ]
    ]
