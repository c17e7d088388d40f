-- ===== src/Interest/Maps.antt =====
-- The ordered maps and sets in which the router tallies a task's messages.
use wyrtloom.Base.{
  ℕ, ◌<◌, ◌≡◌, refl, arith, Bool, false, ◌&&◌, ◌||◌, List, [], ◌∷◌, any, All, ltb, ltb→lt, ◌==◌,
  ==_iff, Bool-cases, inl, inr, sym, ap, subst, if◌then◌else◌,
}
use wyrtloom.Kanban.{TaskId}
use wyrtloom.Interest.{SignalKind, kind_rank, InterestSignal, insert_task, upsert, value, emit}

-- The keys of a map ascend.
abbrev pub SortedKeys : List (TaskId × ℕ) → Type 0
SortedKeys [] = Unit
SortedKeys ((k, v) ∷ m) = All (λ e. k < e.0) m × SortedKeys m

value-below : (k : TaskId) (m : List (TaskId × ℕ)) → All (λ e. k < e.0) m → value k m ≡ 0
unfolding value
value-below k [] h = refl
value-below k ((j, v) ∷ m) h = ground (arith, h.0, value-below k m h.1)

below_trans :
    (i j : TaskId) (m : List (TaskId × ℕ)) → i < j → All (λ e. j < e.0) m → All (λ e. i < e.0) m
below_trans i j [] h a = tt
below_trans i j ((k, v) ∷ m) h a = (omega (arith, h, a.0), below_trans i j m h a.1)

pub value-upsert :
    (k j : TaskId) (f : ℕ → ℕ) (m : List (TaskId × ℕ))
    → SortedKeys m
    → value k (upsert j f m) ≡ (if k == j then f (value k m) else value k m)
unfolding value upsert
value-upsert k j f [] s = ground arith
value-upsert k j f ((i, v) ∷ m) s =
    ground (arith, value-upsert k j f m s.1, value-below k m, below_trans k i m)

All-upsert :
    (i k : TaskId) (f : ℕ → ℕ) (m : List (TaskId × ℕ))
    → i < k
    → All (λ e. i < e.0) m
    → All (λ e. i < e.0) (upsert k f m)
unfolding upsert
All-upsert i k f [] h a = (h, tt)
All-upsert i k f ((j, v) ∷ m) h a = elim (Bool-cases (ltb k j)) [
  | inl new ↦ rw new (h, (a.0, a.1))
  | inr n ↦ elim (Bool-cases (k == j)) [
    | inl same ↦ rw n (rw same (a.0, a.1))
    | inr later ↦ rw n (rw later (a.0, All-upsert i k f m h a.1))
  ]
]

pub upsert-SortedKeys :
    (k : TaskId) (f : ℕ → ℕ) (m : List (TaskId × ℕ)) → SortedKeys m → SortedKeys (upsert k f m)
unfolding upsert
upsert-SortedKeys k f [] s = (tt, tt)
upsert-SortedKeys k f ((j, v) ∷ m) s = elim (Bool-cases (ltb k j)) [
  | inl new ↦ let lt = ltb→lt k j new in rw new ((lt, below_trans k j m lt s.0), s)
  | inr n ↦ elim (Bool-cases (k == j)) [
    | inl same ↦ rw n (rw same s)
    | inr later ↦
        rw n (
          rw later (All-upsert j k f m (ground (arith, n, later)) s.0, upsert-SortedKeys k f m s.1))
  ]
]

pub member-insert_task :
    (t x : TaskId) (l : List TaskId)
    → any (λ u. u == t) (insert_task x l) ≡ (x == t || any (λ u. u == t) l)
unfolding insert_task
member-insert_task t x [] = ground arith
member-insert_task t x (u ∷ us) = ground (arith, member-insert_task t x us)

-- Equal in each field.
abbrev pub signal_eq : InterestSignal → InterestSignal → Bool
signal_eq s r =
    kind_rank s.kind == kind_rank r.kind && (s.origin_task == r.origin_task && s.weight == r.weight)

emit-none :
    (s : InterestSignal) (kind : SignalKind) (test : TaskId → ℕ → Bool) (weight : TaskId → ℕ → ℕ)
    (m : List (TaskId × ℕ))
    → All (λ e. s.origin_task < e.0) m
    → any (signal_eq s) (emit kind test weight m) ≡ false
unfolding emit
emit-none s kind test weight [] h = refl
emit-none s kind test weight ((j, v) ∷ m) h =
    ground (arith, h.0, emit-none s kind test weight m h.1)

-- A loop over a map raises the signal exactly when the task's tally asks for it, where 0 never does.
pub any-emit :
    (s : InterestSignal) (kind : SignalKind) (test : TaskId → ℕ → Bool) (weight : TaskId → ℕ → ℕ)
    (m : List (TaskId × ℕ))
    → test s.origin_task 0 ≡ false
    → SortedKeys m
    → any (signal_eq s) (emit kind test weight m) ≡ (
        kind_rank s.kind == kind_rank kind
        && (test s.origin_task (value s.origin_task m)
            && s.weight == weight s.origin_task (value s.origin_task m)))
unfolding emit value
any-emit s kind test weight [] z h = ground (arith, z)
any-emit s kind test weight ((j, v) ∷ m) z h = elim (Bool-cases (s.origin_task == j)) [
  | inl here ↦
      let e = (==_iff s.origin_task j).0 here in
      let later = emit-none s kind test weight m (subst (λ i. All (λ e. i < e.0) m) (sym e) h.0) in
      let tested = ap (λ i. test i v) e in
      let weighed = ap (λ i. weight i v) e in
      elim (Bool-cases (test j v)) [
        | inl pass ↦ ground (arith, here, later, tested, weighed, pass)
        | inr fail ↦ ground (arith, here, later, tested, weighed, fail)
      ]
  | inr there ↦ elim (Bool-cases (test j v)) [
    | inl pass ↦ ground (arith, there, pass, any-emit s kind test weight m z h.1)
    | inr fail ↦ ground (arith, there, fail, any-emit s kind test weight m z h.1)
  ]
]
