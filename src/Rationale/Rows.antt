-- ===== src/Rationale/Rows.antt =====
-- The rows of the rationale ledger as records.
use mathlib.Core.Path.{ap₂}
use wyrtloom.Base.{
  ◌≡◌, refl, sym, ap, ◌∙◌, arith, Bool, false, ◌&&◌, Option, none, some, List, [], ◌∷◌, map, str_eq,
  str_eq_iff, ◌==◌, ==_iff, Bool-cases, inl, inr,
}
use wyrtloom.Kanban.{TaskId}
use wyrtloom.Db.{ok, decode_rows, Rfc3339}
use wyrtloom.Rationale.{
  RationaleId, RationaleRecord, IdText, row_of, raw_to_record, parse_supersedes, names,
  show_supersedes, replaces,
}

abbrev pub targets : Option RationaleId → RationaleId → Bool
targets none i = false
targets (some j) i = j == i

-- The record takes the place of another of its task.
abbrev pub supersedes_it : RationaleRecord → RationaleRecord → Bool
supersedes_it r s = targets s.supersedes r.id && s.task == r.task

module _ (ids : IdText) where
  show-injective : (i j : TaskId) → ids.show_id i ≡ ids.show_id j → i ≡ j
  show-injective i j e =
      inside (sym (ids.parse-show_id i) ∙ ap ids.parse_id e ∙ ids.parse-show_id j)
    where
      inside : some i ≡ some j → i ≡ j
      inside h = cc

  distinct : (i j : TaskId) → (i == j) ≡ false → (i ≡ j) → ⊥
  distinct i j e f = ground (arith, e, f)

  pub show_eq : (i j : TaskId) → str_eq (ids.show_id i) (ids.show_id j) ≡ (i == j)
  show_eq i j = elim (Bool-cases (i == j)) [
    | inl e ↦ let same = (==_iff i j).0 e in (str_eq_iff _ _).1 (ap ids.show_id same) ∙ sym e
    | inr e ↦ elim (Bool-cases (str_eq (ids.show_id i) (ids.show_id j))) [
      | inl f ↦ absurd (distinct i j e (show-injective i j ((str_eq_iff _ _).0 f)))
      | inr f ↦ f ∙ sym e
    ]
  ]

  names-targets :
      (i : RationaleId) (o : Option RationaleId)
      → names (show_supersedes ids o) (ids.show_id i) ≡ targets o i
  names-targets i none = refl
  names-targets i (some j) = show_eq j i

  parse_supersedes-show :
      (o : Option RationaleId) → parse_supersedes ids (show_supersedes ids o) ≡ ok o
  unfolding parse_supersedes
  parse_supersedes-show none = refl
  parse_supersedes-show (some i) = rw (ids.parse-show_id i) refl

  module _ (time : Rfc3339) where
    pub raw_to_record-row_of :
        (r : RationaleRecord) → raw_to_record ids time (row_of ids time r) ≡ ok r
    unfolding raw_to_record row_of
    raw_to_record-row_of r = rw (ids.parse-show_id r.id) (
        rw (ids.parse-show_id r.task)
          (rw (parse_supersedes-show r.supersedes) (rw (time.parse-show_time r.recorded_at) refl)))

    pub replaces-row_of :
        (r s : RationaleRecord)
        → replaces (row_of ids time r) (row_of ids time s) ≡ supersedes_it r s
    unfolding row_of
    replaces-row_of r s = ap₂ ◌&&◌ (names-targets r.id s.supersedes) (show_eq s.task r.task)

    pub decode-row_of :
        (rs : List RationaleRecord)
        → decode_rows (raw_to_record ids time) (map (row_of ids time) rs) ≡ ok rs
    unfolding decode_rows
    decode-row_of [] = refl
    decode-row_of (r ∷ rs) = rw (raw_to_record-row_of r) (rw (decode-row_of rs) refl)
