-- ===== src/Probe/Staircase.antt =====
-- A sequence of graded probes: what it credits, and where it leaves the staircase.
use wyrtloom.Base.{
  ℕ, ◌+◌, ◌-◌, ◌≡◌, refl, sym, ap, ◌∙◌, arith, Bool, true, false, not, ◌&&◌, ◌||◌, String, List, [],
  ◌∷◌, ◌++◌, map, keep, any, str_eq, str_eq_iff, if◌then◌else◌, Bool-cases, inl, inr,
}
use mathlib.Core.List.{append_assoc, append-nil}
use Prim.Native.Nat.{min}
use wyrtloom.Probe.{
  ConceptId, Rung, rung_index, rung_at, up, down, Probe, Ladder, contains, insert_concept,
  run_probe,
}

-- `run` over the probes in order, each with the output of its execution.
unfoldable pub run_all : Ladder → List (Probe × String) → Ladder
run_all l [] = l
run_all l ((probe, out) ∷ ps) = run_all (run_probe l probe out).1 ps

-- The prediction was right, and unaided; or it was wrong where the system is anomalous.
abbrev pub credited : Probe × String → Bool
credited (p, out) = str_eq p.predicted_output out && not p.scaffolded

abbrev pub suspicious : Probe × String → Bool
suspicious (p, out) = not (str_eq p.predicted_output out) && p.behaviour_is_anomalous

abbrev pub concept_of : Probe × String → ConceptId
concept_of (p, out) = p.concept

-- One step of the staircase on 0 to 4, from the rung of the last probe.
abbrev pub stair : ℕ → List (Probe × String) → ℕ
stair n [] = n
stair n ((p, out) ∷ ps) =
    stair
      (if str_eq p.predicted_output out
        then min (rung_index p.rung + 1) 4
        else rung_index p.rung - 1)
      ps

up_index : (r : Rung) → rung_index (up r) ≡ min (rung_index r + 1) 4
unfolding up rung_index rung_at
up_index r = ground arith

down_index : (r : Rung) → rung_index (down r) ≡ rung_index r - 1
unfolding down rung_index rung_at
down_index r = ground arith

contains-insert :
    (c d : ConceptId) (set : List ConceptId)
    → contains (insert_concept d set) c ≡ (contains set c || str_eq c d)
contains-insert c d set = elim (Bool-cases (contains set d)) [
  | inl old ↦ elim (Bool-cases (str_eq c d)) [
    | inl same ↦
        let e : contains set c ≡ true = ap (contains set) ((str_eq_iff c d).0 same) ∙ old in
        ground (arith, old, same, e)
    | inr other ↦ ground (arith, old, other)
  ]
  | inr new ↦ ground (arith, new)
]

crystallised_step :
    (l : Ladder) (p : Probe) (out : String)
    → (run_probe l p out).1.crystallised
      ≡ l.crystallised ++ (if credited (p, out) then p.concept ∷ [] else [])
unfolding run_probe
crystallised_step l p out = elim (Bool-cases (str_eq p.predicted_output out)) [
  | inl h ↦ ground (arith, h, append-nil l.crystallised)
  | inr h ↦ ground (arith, h, append-nil l.crystallised)
]

defects_step :
    (l : Ladder) (p : Probe) (out : String)
    → (run_probe l p out).1.defect_signals
      ≡ l.defect_signals ++ (if suspicious (p, out) then p.concept ∷ [] else [])
unfolding run_probe
defects_step l p out = elim (Bool-cases (str_eq p.predicted_output out)) [
  | inl h ↦ ground (arith, h, append-nil l.defect_signals)
  | inr h ↦ ground (arith, h, append-nil l.defect_signals)
]

mastered_step :
    (l : Ladder) (p : Probe) (out : String) (c : ConceptId)
    → contains (run_probe l p out).1.mastered c
      ≡ (contains l.mastered c || (credited (p, out) && str_eq c p.concept))
unfolding run_probe
mastered_step l p out c = elim (Bool-cases (str_eq p.predicted_output out)) [
  | inl h ↦ ground (arith, h, contains-insert c p.concept l.mastered)
  | inr h ↦ ground (arith, h)
]

rung_step :
    (l : Ladder) (p : Probe) (out : String)
    → rung_index (run_probe l p out).1.rung ≡ (
        if str_eq p.predicted_output out
        then min (rung_index p.rung + 1) 4
        else rung_index p.rung - 1)
unfolding run_probe
rung_step l p out = elim (Bool-cases (str_eq p.predicted_output out)) [
  | inl h ↦ rw h (up_index p.rung)
  | inr h ↦ rw h (down_index p.rung)
]

-- What one probe adds goes before what the later ones add.
grown :
    (q : Bool) (xs : List ConceptId) (p : Probe × String) (k : List (Probe × String))
    {ys : List ConceptId}
    → ys ≡ xs ++ (if q then concept_of p ∷ [] else [])
    → ys ++ map concept_of k ≡ xs ++ map concept_of (if q then p ∷ k else k)
grown true xs p k e =
    ap (λ l. l ++ map concept_of k) e ∙ append_assoc xs (concept_of p ∷ []) (map concept_of k)
grown false xs p k e = ap (λ l. l ++ map concept_of k) (e ∙ append-nil xs)

-- After any sequence of probes: the crystallised concepts are, in order, those of the credited
-- probes; a concept is mastered exactly when it was before or a credited probe is about it; the
-- design-defect signals are, in order, the concepts of the suspicious misses; and the rung is the
-- last probe's, one higher after a pass and one lower after a miss, within the five.
pub run_all_lem :
    (l : Ladder) (ps : List (Probe × String)) (c : ConceptId)
    → ((run_all l ps).crystallised ≡ l.crystallised ++ map concept_of (keep credited ps))
      × (contains (run_all l ps).mastered c
          ≡ (contains l.mastered c || any (λ p. credited p && str_eq c (concept_of p)) ps))
      × ((run_all l ps).defect_signals ≡ l.defect_signals ++ map concept_of (keep suspicious ps))
      × (rung_index (run_all l ps).rung ≡ stair (rung_index l.rung) ps)
unfolding run_all
run_all_lem l [] c = (sym (append-nil _), ground arith, sym (append-nil _), refl)
run_all_lem l ((p, out) ∷ ps) c =
    let (crystal, master, defect, rung) = run_all_lem (run_probe l p out).1 ps c in
    (
      crystal
          ∙ grown (credited (p, out)) l.crystallised (p, out) (keep credited ps)
              (crystallised_step l p out),
      master ∙ ground (arith, mastered_step l p out c),
      defect
          ∙ grown (suspicious (p, out)) l.defect_signals (p, out) (keep suspicious ps)
              (defects_step l p out),
      rung ∙ ap (λ n. stair n ps) (rung_step l p out),
    )
