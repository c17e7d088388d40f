-- ===== src/Interest/Signals.antt =====
-- Which signals a stream of messages raises, and in what order they come.
use wyrtloom.Base.{
  ℕ, suc, ◌+◌, ◌-◌, ◌^◌, ◌<◌, ◌≡◌, refl, ◌∙◌, arith, Bool, true, false, ◌&&◌, ◌||◌, List, [], ◌∷◌,
  ◌++◌, map, any, length, ltb, leb, ◌==◌, any-append, any-sort_by, sort_by-Ascending, Ascending,
  Bool-cases, inl, inr, if◌then◌else◌,
}
use Prim.Native.Nat.{max}
use mathlib.Core.Path.{ap₂}
use wyrtloom.Kanban.{TaskId}
use wyrtloom.Agent.{AgentMessage, request, response, delegation, result, error, origin_task, hops}
use wyrtloom.Interest.{
  SignalKind, retry_failure_cluster, novelty_vs_baseline, cross_module_anomaly,
  contract_boundary_ambiguity, kind_rank, InterestSignal, BehaviouralBaseline, is_novel_task,
  is_novel_hops, value, Tallies, no_tallies, bump, deeper, note_novel, tally, tally_all, emit,
  novelty, signal_le, signals_of, derive_signals,
}
use wyrtloom.Interest.Maps.{
  SortedKeys, value-upsert, upsert-SortedKeys, member-insert_task, signal_eq, any-emit,
}

-- How often a test holds, and the largest number.
abbrev pub count : (AgentMessage → Bool) → List AgentMessage → ℕ
count p [] = 0
count p (m ∷ ms) = (if p m then 1 else 0) + count p ms

abbrev pub is_error : AgentMessage → Bool
is_error (error t h e) = true
is_error _ = false

abbrev pub is_delegation : AgentMessage → Bool
is_delegation (delegation t h b) = true
is_delegation _ = false

abbrev pub is_result : AgentMessage → Bool
is_result (result t h b) = true
is_result _ = false

abbrev pub about : TaskId → (AgentMessage → Bool) → AgentMessage → Bool
about t p m = t == origin_task m && p m

-- The most hops of an error about the task.
abbrev pub deepest_error : TaskId → List AgentMessage → ℕ
deepest_error t [] = 0
deepest_error t (m ∷ ms) =
    if about t is_error m then max (hops m) (deepest_error t ms) else deepest_error t ms

abbrev pub is_novel : BehaviouralBaseline → AgentMessage → Bool
is_novel b m = is_novel_task b (origin_task m) || is_novel_hops b (hops m)

-- What a signal of each kind takes, of the errors, delegations and results, the deepest error and
-- the novelty; and the weight that it then has.
abbrev pub asked : SignalKind → ℕ → ℕ → ℕ → ℕ → ℕ → Bool → Bool
asked retry_failure_cluster weight errors delegations results depth novel =
    leb 3 errors && weight == errors
asked novelty_vs_baseline weight errors delegations results depth novel = novel && weight == 1
asked cross_module_anomaly weight errors delegations results depth novel =
    ltb 1 depth && weight == depth
asked contract_boundary_ambiguity weight errors delegations results depth novel =
    ltb results delegations && weight == delegations - results

-- The task's messages call for the signal.
abbrev pub called_for : BehaviouralBaseline → List AgentMessage → InterestSignal → Bool
called_for b ms s =
    asked s.kind s.weight (count (about s.origin_task is_error) ms)
      (count (about s.origin_task is_delegation) ms) (count (about s.origin_task is_result) ms)
      (deepest_error s.origin_task ms) (any (about s.origin_task (is_novel b)) ms)

abbrev Sorted : Tallies → Type 0
Sorted ts =
    SortedKeys ts.error_counts
    × SortedKeys ts.delegations
    × SortedKeys ts.results
    × SortedKeys ts.error_max_hops

tally-Sorted :
    (b : BehaviouralBaseline) (ts : Tallies) (m : AgentMessage) → Sorted ts → Sorted (tally b ts m)
unfolding tally
tally-Sorted b ts (request t h x) s = s
tally-Sorted b ts (response t h x) s = s
tally-Sorted b ts (delegation t h x) s = (s.0, upsert-SortedKeys t bump _ s.1, s.2, s.3)
tally-Sorted b ts (result t h x) s = (s.0, s.1, upsert-SortedKeys t bump _ s.2, s.3)
tally-Sorted b ts (error t h x) s =
    (upsert-SortedKeys t bump _ s.0, s.1, s.2, upsert-SortedKeys t (deeper h) _ s.3)

-- What one message adds to a task's tallies.
abbrev Added : BehaviouralBaseline → TaskId → Tallies → AgentMessage → Tallies → Type 0
Added b t ts m us =
    (value t us.error_counts
      ≡ (if about t is_error m then bump (value t ts.error_counts) else value t ts.error_counts))
    × (value t us.delegations ≡ (
        if about t is_delegation m then bump (value t ts.delegations) else value t ts.delegations))
    × (value t us.results
        ≡ (if about t is_result m then bump (value t ts.results) else value t ts.results))
    × (value t us.error_max_hops ≡ (
        if about t is_error m
        then max (hops m) (value t ts.error_max_hops)
        else value t ts.error_max_hops))
    × (any (λ u. u == t) us.novel_tasks
        ≡ (about t (is_novel b) m || any (λ u. u == t) ts.novel_tasks))

note_novel_lem :
    (b : BehaviouralBaseline) (t : TaskId) (m : AgentMessage) (l : List TaskId)
    → any (λ u. u == t) (note_novel b m l) ≡ (about t (is_novel b) m || any (λ u. u == t) l)
unfolding note_novel
note_novel_lem b t m l = elim (Bool-cases (is_novel b m)) [
  | inl new ↦ ground (arith, new, member-insert_task t (origin_task m) l)
  | inr old ↦ ground (arith, old)
]

tally-Added :
    (b : BehaviouralBaseline) (t : TaskId) (ts : Tallies) (m : AgentMessage)
    → Sorted ts
    → Added b t ts m (tally b ts m)
unfolding tally
tally-Added b t ts (request i h x) s = (
  ground arith,
  ground arith,
  ground arith,
  ground arith,
  note_novel_lem b t (request i h x) ts.novel_tasks,
)
tally-Added b t ts (response i h x) s = (
  ground arith,
  ground arith,
  ground arith,
  ground arith,
  note_novel_lem b t (response i h x) ts.novel_tasks,
)
tally-Added b t ts (delegation i h x) s = (
  ground arith,
  ground (arith, value-upsert t i bump ts.delegations s.1),
  ground arith,
  ground arith,
  note_novel_lem b t (delegation i h x) ts.novel_tasks,
)
tally-Added b t ts (result i h x) s = (
  ground arith,
  ground arith,
  ground (arith, value-upsert t i bump ts.results s.2),
  ground arith,
  note_novel_lem b t (result i h x) ts.novel_tasks,
)
tally-Added b t ts (error i h x) s = (
  ground (arith, value-upsert t i bump ts.error_counts s.0),
  ground arith,
  ground arith,
  ground (arith, value-upsert t i (deeper h) ts.error_max_hops s.3),
  note_novel_lem b t (error i h x) ts.novel_tasks,
)

-- What a stream adds, where no count reaches the end of its type.
abbrev Totals : BehaviouralBaseline → TaskId → Tallies → List AgentMessage → Tallies → Type 0
Totals b t ts ms us =
    (value t us.error_counts ≡ value t ts.error_counts + count (about t is_error) ms)
    × (value t us.delegations ≡ value t ts.delegations + count (about t is_delegation) ms)
    × (value t us.results ≡ value t ts.results + count (about t is_result) ms)
    × (value t us.error_max_hops ≡ max (value t ts.error_max_hops) (deepest_error t ms))
    × (any (λ u. u == t) us.novel_tasks
        ≡ (any (λ u. u == t) ts.novel_tasks || any (about t (is_novel b)) ms))

abbrev Room : TaskId → Tallies → List AgentMessage → Type 0
Room t ts ms =
    (value t ts.error_counts + length ms < 2 ^ 32)
    × (value t ts.delegations + length ms < 2 ^ 32)
    × (value t ts.results + length ms < 2 ^ 32)

tally_all-Sorted :
    (b : BehaviouralBaseline) (ts : Tallies) (ms : List AgentMessage)
    → Sorted ts
    → Sorted (tally_all b ts ms)
unfolding tally_all
tally_all-Sorted b ts [] s = s
tally_all-Sorted b ts (m ∷ ms) s = tally_all-Sorted b (tally b ts m) ms (tally-Sorted b ts m s)

add_bump :
    (q : Bool) (v w c n : ℕ)
    → w ≡ (if q then bump v else v)
    → v + suc n < 2 ^ 32
    → (w + n < 2 ^ 32) × (w + c ≡ v + ((if q then 1 else 0) + c))
add_bump q v w c n e h = ground (arith, e, h)

max_step :
    (q : Bool) (v w d h : ℕ)
    → w ≡ (if q then max h v else v)
    → max w d ≡ max v (if q then max h d else d)
max_step q v w d h e = ground (arith, e)

tally_all-Totals :
    (b : BehaviouralBaseline) (t : TaskId) (ts : Tallies) (ms : List AgentMessage)
    → Sorted ts
    → Room t ts ms
    → Totals b t ts ms (tally_all b ts ms)
unfolding tally_all
tally_all-Totals b t ts [] s r =
    (ground arith, ground arith, ground arith, ground arith, ground arith)
tally_all-Totals b t ts (m ∷ ms) s r =
    let us = tally b ts m in
    let (e, d, f, x, n) = tally-Added b t ts m s in
    let ee = add_bump _ _ _ (count (about t is_error) ms) (length ms) e r.0 in
    let dd = add_bump _ _ _ (count (about t is_delegation) ms) (length ms) d r.1 in
    let ff = add_bump _ _ _ (count (about t is_result) ms) (length ms) f r.2 in
    let (eh, dh, fh, xh, nh) =
      tally_all-Totals b t us ms (tally-Sorted b ts m s) (ee.0, dd.0, ff.0) in
    (
      eh ∙ ee.1,
      dh ∙ dd.1,
      fh ∙ ff.1,
      xh ∙ max_step _ _ _ (deepest_error t ms) (hops m) x,
      ground (arith, nh, n),
    )

any-novelty :
    (s : InterestSignal) (l : List TaskId)
    → any (signal_eq s) (map novelty l)
      ≡ (kind_rank s.kind == 1 && (any (λ u. u == s.origin_task) l && s.weight == 1))
any-novelty s [] = ground arith
any-novelty s (u ∷ us) = ground (arith, any-novelty s us)

any_four :
    (s : InterestSignal) (a b c d : List InterestSignal)
    → any (signal_eq s) (a ++ (b ++ (c ++ d))) ≡ (
        any (signal_eq s) a
        || (any (signal_eq s) b || (any (signal_eq s) c || any (signal_eq s) d)))
any_four s a b c d = ground (
  arith,
  any-append (signal_eq s) a (b ++ (c ++ d)),
  any-append (signal_eq s) b (c ++ d),
  any-append (signal_eq s) c d,
)

-- The signal of the tallies of its task.
abbrev tallied : Tallies → SignalKind → TaskId → ℕ → Bool
tallied us kind t weight =
    asked kind weight (value t us.error_counts) (value t us.delegations) (value t us.results)
      (value t us.error_max_hops) (any (λ u. u == t) us.novel_tasks)

by_kind :
    (kind : SignalKind) (weight errors delegations results depth : ℕ) (novel : Bool)
    → (kind_rank kind == 0 && (leb 3 errors && weight == errors)
        || (kind_rank kind == 1 && (novel && weight == 1)
            || (kind_rank kind == 2 && (ltb 1 depth && weight == depth)
                || kind_rank kind == 3
                  && (ltb results delegations && weight == delegations - results))))
      ≡ asked kind weight errors delegations results depth novel
by_kind retry_failure_cluster w e d r x n = ground arith
by_kind novelty_vs_baseline w e d r x n = ground arith
by_kind cross_module_anomaly w e d r x n = ground arith
by_kind contract_boundary_ambiguity w e d r x n = ground arith

signals_of-tallied :
    (us : Tallies) (kind : SignalKind) (t : TaskId) (weight : ℕ)
    → Sorted us
    → any (signal_eq (record { kind = kind; origin_task = t; weight = weight })) (signals_of us)
      ≡ tallied us kind t weight
unfolding signals_of
signals_of-tallied us kind t weight s =
    let me : InterestSignal = record { kind = kind; origin_task = t; weight = weight } in
    let a =
      any-emit me retry_failure_cluster (λ i n. leb 3 n) (λ i n. n) us.error_counts refl s.0 in
    let b = any-novelty me us.novel_tasks in
    let c =
      any-emit me cross_module_anomaly (λ i n. ltb 1 n) (λ i n. n) us.error_max_hops refl s.3 in
    let d =
      any-emit me contract_boundary_ambiguity (λ i n. ltb (value i us.results) n)
        (λ i n. n - value i us.results) us.delegations (ground arith) s.1 in
    any_four me (emit retry_failure_cluster (λ i n. leb 3 n) (λ i n. n) us.error_counts)
      (map novelty us.novel_tasks)
      (emit cross_module_anomaly (λ i n. ltb 1 n) (λ i n. n) us.error_max_hops)
      (emit contract_boundary_ambiguity (λ i n. ltb (value i us.results) n)
        (λ i n. n - value i us.results) us.delegations)
    ∙ ap₂ ◌||◌ a (ap₂ ◌||◌ b (ap₂ ◌||◌ c d))
    ∙ by_kind kind weight _ _ _ _ _

same_tallies :
    (kind : SignalKind) (weight : ℕ) {e e' d d' r r' x x' : ℕ} {n n' : Bool}
    → e ≡ e'
    → d ≡ d'
    → r ≡ r'
    → x ≡ x'
    → n ≡ n'
    → asked kind weight e d r x n ≡ asked kind weight e' d' r' x' n'
same_tallies retry_failure_cluster w e d r x n = ground (arith, e)
same_tallies novelty_vs_baseline w e d r x n = ground (arith, n)
same_tallies cross_module_anomaly w e d r x n = ground (arith, x)
same_tallies contract_boundary_ambiguity w e d r x n = ground (arith, d, r)

tallied-called_for :
    (b : BehaviouralBaseline) (ms : List AgentMessage) (kind : SignalKind) (t : TaskId) (weight : ℕ)
    → length ms < 2 ^ 32
    → tallied (tally_all b no_tallies ms) kind t weight
      ≡ called_for b ms (record { kind = kind; origin_task = t; weight = weight })
unfolding no_tallies value
tallied-called_for b ms kind t weight few =
    let (e, d, r, x, n) = tally_all-Totals b t no_tallies ms (tt, tt, tt, tt) (few', few', few') in
    same_tallies kind weight (omega (arith, e)) (omega (arith, d)) (omega (arith, r))
      (omega (arith, x)) n
  where
    few' : 0 + length ms < 2 ^ 32
    few' = omega (arith, few)

signal_le_total : (a b : InterestSignal) → signal_le a b ≡ false → signal_le b a ≡ true
signal_le_total a b h = ground (arith, h)

signal_le_trans :
    (a b c : InterestSignal) → signal_le a b ≡ true → signal_le b c ≡ true → signal_le a c ≡ true
signal_le_trans a b c h k = ground (arith, h, k)

-- For fewer messages than a count can hold: a signal is derived exactly when its task's messages call
-- for it with that weight (three errors at least, a message outside the baseline, an error more than
-- one hop deep, more delegations than results), and the signals come by task, kind and weight.
pub derive_signals-called_for :
    (ms : List AgentMessage) (b : BehaviouralBaseline) (s : InterestSignal)
    → length ms < 2 ^ 32
    → (any (signal_eq s) (derive_signals ms b) ≡ called_for b ms s)
      × Ascending signal_le (derive_signals ms b)
unfolding derive_signals
derive_signals-called_for ms b s few =
    let us = tally_all b no_tallies ms in
    (
      any-sort_by signal_le (signal_eq s) (signals_of us)
          ∙ signals_of-tallied us s.kind s.origin_task s.weight
              (tally_all-Sorted b no_tallies ms (tt, tt, tt, tt))
          ∙ tallied-called_for b ms s.kind s.origin_task s.weight few,
      sort_by-Ascending signal_le signal_le_total signal_le_trans (signals_of us),
    )
