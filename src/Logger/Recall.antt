-- ===== src/Logger/Recall.antt =====
-- What a call log gives back of the calls that it has recorded.
use mathlib.Core.List.{append_assoc, append-nil, map-append}
use wyrtloom.Base.{
  ◌^◌, keep, if◌then◌else◌, ◌≡◌, refl, sym, ap, ◌∙◌, arith, Bool, true, false, Option, none, some,
  List, [], ◌∷◌, ◌++◌, map, ltb, ◌&&◌, Bool-cases, inl, inr,
}
use wyrtloom.Provider.{Money}
use wyrtloom.Rationale.{IdText}
use wyrtloom.Db.{Result, ok, err, Conn, and_then, decode_rows, Rfc3339}
use wyrtloom.Db.Laws.{
  answered, Reads, Writes, Tells, Reads-Tells, bind-Writes, give-Reads, statement-Writes,
  rows-Reads, inside, err≢ok, Result-cases,
}
use wyrtloom.Logger.{
  CallOutcome, completed, failed, partial, CallLog, LogError, prepare_failed, query_failed,
  row_read_failed, insert_failed, LogRow, init_schema, outcome_text, outcome_from, cost_fields,
  cost_from, row_of, bind_row, record_call, read_row, all_logs,
}

outcome_from-text : (o : CallOutcome) → outcome_from (outcome_text o).0 (outcome_text o).1 ≡ ok o
unfolding outcome_from outcome_text
outcome_from-text completed = refl
outcome_from-text (failed s) = refl
outcome_from-text (partial s) = refl

cost_from-fields : (m : Option Money) → cost_from (cost_fields m).0 (cost_fields m).1 ≡ m
unfolding cost_from cost_fields
cost_from-fields none = refl
cost_from-fields (some m) = refl

module _ (ids : IdText) (time : Rfc3339) where
  read_row-row_of : (e : CallLog) → read_row ids time (row_of ids time e) ≡ ok e
  unfolding read_row row_of
  read_row-row_of e = rw (ids.parse-show_id e.task) (
      rw (outcome_from-text e.outcome)
        (rw (time.parse-show_time e.at) (rw (cost_from-fields e.usage.cost) refl)))

  read-rows :
      (es : List CallLog) → decode_rows (read_row ids time) (map (row_of ids time) es) ≡ ok es
  unfolding decode_rows
  read-rows [] = refl
  read-rows (e ∷ es) = rw (read_row-row_of e) (rw (read-rows es) refl)

  -- The state after calls of `record`, and those that answered `Ok(())`.
  abbrev pub run : List CallLog → Conn (List LogRow) → Conn (List LogRow)
  run [] c = c
  run (e ∷ es) c = run es (record_call ids time e c).1

  abbrev pub kept_if : CallLog → Result LogError Unit → List CallLog
  kept_if e (ok a) = e ∷ []
  kept_if e (err d) = []

  abbrev pub recorded : List CallLog → Conn (List LogRow) → List CallLog
  recorded [] c = []
  recorded (e ∷ es) c =
      kept_if e (record_call ids time e c).0 ++ recorded es (record_call ids time e c).1

  written : CallLog → List LogRow → Result LogError (Unit × List LogRow)
  written e t = and_then (bind_row ids time (row_of ids time e)) λ r. ok (tt, t ++ r ∷ [])

  record_call-Writes : (e : CallLog) → Writes (record_call ids time e) (written e)
  unfolding record_call written
  record_call-Writes e =
      bind-Writes (λ t. bind_row ids time (row_of ids time e)) (λ r t. ok (tt, t ++ r ∷ []))
        (give-Reads (bind_row ids time (row_of ids time e)))
        (λ r. statement-Writes insert_failed (λ t. (tt, t ++ r ∷ [])))

  bound : (r : LogRow) {s : LogRow} → bind_row ids time r ≡ ok s → s ≡ r
  unfolding bind_row
  bound r {s} e = ground (arith, e)

  written-row :
      (e : CallLog) (t u : List LogRow) → written e t ≡ ok (tt, u) → u ≡ t ++ row_of ids time e ∷ []
  unfolding written
  written-row e t u h = elim (Result-cases (bind_row ids time (row_of ids time e))) [
    | inl (r, k) ↦
        let rest : ok (tt, t ++ r ∷ []) ≡ ok (tt, u) = rw k at h in
        sym (ap (λ p. p.1) (inside rest)) ∙ ap (λ x. t ++ x ∷ []) (bound (row_of ids time e) k)
    | inr (d, k) ↦ absurd (err≢ok (rw k at h))
  ]

  one_call :
      (e : CallLog) (c : Conn (List LogRow))
      → (record_call ids time e c).1.tables
        ≡ c.tables ++ map (row_of ids time) (kept_if e (record_call ids time e c).0)
  one_call e c =
      let (clear, right, wrong) = record_call-Writes e c in
      elim (Result-cases (record_call ids time e c).0) [
        | inl (a, k) ↦ rw k (written-row e c.tables _ (right tt k))
        | inr (d, k) ↦ rw k (wrong d k ∙ sym (append-nil c.tables))
      ]

  run-rows :
      (es : List CallLog) (before : List CallLog) (c : Conn (List LogRow))
      → c.tables ≡ map (row_of ids time) before
      → (run es c).tables ≡ map (row_of ids time) (before ++ recorded es c)
  run-rows [] before c h = h ∙ ap (map (row_of ids time)) (sym (append-nil before))
  run-rows (e ∷ es) before c h =
      let kept = kept_if e (record_call ids time e c).0 in
      run-rows es (before ++ kept) (record_call ids time e c).1 (
        one_call e c
        ∙ ap (λ t. t ++ map (row_of ids time) kept) h
        ∙ sym (map-append (row_of ids time) before kept))
      ∙ ap (map (row_of ids time))
          (append_assoc before kept (recorded es (record_call ids time e c).1))

  all_logs-Reads : Reads (all_logs ids time) (λ t. decode_rows (read_row ids time) t)
  unfolding all_logs
  all_logs-Reads =
      rows-Reads prepare_failed query_failed row_read_failed (read_row ids time) (λ t. t)

  -- The counts of tokens that an INTEGER of SQLite holds.
  abbrev pub storable : CallLog → Bool
  storable e = ltb e.usage.input_tokens (2 ^ 63) && ltb e.usage.output_tokens (2 ^ 63)

  accepted :
      (e : CallLog) (t : List LogRow)
      → kept_if e (answered (written e t)) ≡ (if storable e then e ∷ [] else [])
  unfolding written bind_row row_of
  accepted e t = elim (Bool-cases (storable e)) [ inl h ↦ rw h refl | inr h ↦ rw h refl ]

  quiet-recorded :
      (es : List CallLog) (c : Conn (List LogRow))
      → c.faults ≡ []
      → recorded es c ≡ keep storable es
  quiet-recorded [] c h = refl
  quiet-recorded (e ∷ es) c h =
      let (clear, right, wrong) = record_call-Writes e c in
      ap (λ l. l ++ recorded es (record_call ids time e c).1)
        (ap (kept_if e) (clear h).1 ∙ accepted e c.tables)
      ∙ ap (λ l. (if storable e then e ∷ [] else []) ++ l)
          (quiet-recorded es (record_call ids time e c).1 (clear h).0)
      ∙ one_more (storable e) e (keep storable es)
    where
      one_more :
          (b : Bool) (e : CallLog) (l : List CallLog)
          → (if b then e ∷ [] else []) ++ l ≡ (if b then e ∷ l else l)
      one_more true e l = refl
      one_more false e l = refl

  -- After any calls of `record` on a new log, whichever SQLite refused: `all_logs` gives back, in their
  -- order and with every field, exactly those that answered `Ok(())`; or SQLite refuses the reading.
  -- And where SQLite refused nothing, those are the calls whose token counts are below 2 ^ 63.
  pub all_logs-recorded :
      (es : List CallLog) (faults : List Bool)
      → let new : Conn (List LogRow) = record { tables = init_schema; faults = faults } in
        Tells (all_logs ids time) (run es new) (recorded es new)
        × (faults ≡ [] → recorded es new ≡ keep storable es)
  unfolding init_schema
  all_logs-recorded es faults =
      let new : Conn (List LogRow) = record { tables = init_schema; faults = faults } in
      (
        Reads-Tells (λ t. decode_rows (read_row ids time) t) (run es new) (recorded es new)
            all_logs-Reads
            (ap (decode_rows (read_row ids time)) (run-rows es [] new refl)
              ∙ read-rows (recorded es new)),
        quiet-recorded es new,
      )
