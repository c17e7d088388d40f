-- ===== src/Sqlite/Readable.antt =====
-- How the rows of sound tables are read.
use wyrtloom.Base.{
  ◌≡◌, refl, ◌∙◌, subst, inl, inr, arith, Bool, true, false, String, some, List, [], ◌∷◌, str_eq,
  str_eq_refl, if◌then◌else◌, Bool-cases, All, keep,
}
use wyrtloom.Kanban.{TaskId, Task, TaskState, StateChange, backlog}
use wyrtloom.Sqlite.Store.{TaskRow, HistoryRow, Tables, Codec}
use wyrtloom.Sqlite.Read.{find_row, rows_of, order_rows, insert_row, row_le}
use wyrtloom.Sqlite.Write.{has_row}
use wyrtloom.Sqlite.Decode.{Decodes, Changes}
use wyrtloom.Sqlite.Trail.{Trail, here, move}
use wyrtloom.Sqlite.Sound.{RowIsSound, ChangeIsSound, IsSound, find_row_sound}
use wyrtloom.Sqlite.Keeps.{All-map}

self_rows : (rs : List TaskRow) → All (λ r. has_row r.id rs ≡ true) rs
self_rows [] = tt
self_rows (x ∷ rs) =
    (rw (str_eq_refl x.id), All-map _ _ rs (λ r h. ground (arith, h)) (self_rows rs))

find_row_has :
    (key : String) (rs : List TaskRow)
    → has_row key rs ≡ true
    → (r : TaskRow) × (find_row key rs ≡ some r)
unfolding find_row
find_row_has key [] h = cc
find_row_has key (x ∷ rs) h = elim (Bool-cases (str_eq x.id key)) [
  | inl e ↦ (x, rw e)
  | inr e ↦ let (r, f) = find_row_has key rs (ground (arith, e)) in (r, rw e f)
]

module _ {ℓ κ} {A : Type ℓ} (P : A → Type κ) where
  All-keep : (p : A → Bool) (xs : List A) → All P xs → All P (keep p xs)
  All-keep p [] a = tt
  All-keep p (x ∷ xs) a = elim (Bool-cases (p x)) [
    | inl e ↦ rw e (a.0, All-keep p xs a.1)
    | inr e ↦ rw e (All-keep p xs a.1)
  ]

module _ {κ} (P : TaskRow → Type κ) where
  All-if : (c : Bool) (xs ys : List TaskRow) → All P xs → All P ys → All P (if c then xs else ys)
  All-if true xs ys a b = a
  All-if false xs ys a b = b

  All-insert_row : (r : TaskRow) (rs : List TaskRow) → P r → All P rs → All P (insert_row r rs)
  unfolding insert_row
  All-insert_row r [] p a = (p, tt)
  All-insert_row r (x ∷ rs) p a =
      All-if (row_le r x) (r ∷ x ∷ rs) (x ∷ insert_row r rs) (p, a) (a.0, All-insert_row r rs p a.1)

  pub All-order_rows : (rs : List TaskRow) → All P rs → All P (order_rows rs)
  unfolding order_rows
  All-order_rows [] a = tt
  All-order_rows (r ∷ rs) a = All-insert_row r (order_rows rs) a.0 (All-order_rows rs a.1)

module _ (k : Codec) where
  trail-Changes :
      {s t : TaskState} {hs : List HistoryRow} (rs : List TaskRow)
      → Trail s hs t
      → All (ChangeIsSound k rs) hs
      → (cs : List StateChange) × Changes k hs cs
  trail-Changes rs here a = ([], tt)
  trail-Changes rs (move {s = s} {t = u} {h = h} f g l r) a =
      let (cs, c) = trail-Changes rs r a.1 in
      (
        record { from = s; to = u; actor = h.actor; at = a.0.1.0; reason = h.reason } ∷ cs,
        (
          record {
            from_text = f;
            to_text = g;
            at_text = a.0.1.1;
            same_actor = refl;
            same_reason = refl;
          },
          c,
        ),
      )

  -- A row of sound tables, with what its key stands for.
  abbrev pub IsRead : Tables → TaskRow → Type 0
  IsRead t r = (id : TaskId) × (r.id ≡ k.show_id id) × (x : Task) × Decodes k t id x

  found_row :
      (t : Tables) (r : TaskRow) (w : RowIsSound k t.history r) (id : TaskId)
      → IsSound k t
      → r.id ≡ k.show_id id
      → find_row (k.show_id id) t.tasks ≡ some r
      → (x : Task) × Decodes k t id x
  unfolding rows_of
  found_row t r w id s key found =
      let trail : Trail backlog (rows_of (k.show_id id) t.history) w.state =
        subst (λ i. Trail backlog (rows_of i t.history) w.state) key w.trail in
      let (cs, c) = trail-Changes t.tasks trail (All-keep _ _ t.history s.changes) in
      (
        record {
          id = id;
          title = r.title;
          state = w.state;
          actor = r.actor;
          depends_on = w.depends_on;
          block_reason = w.block_reason;
          history = cs;
          created_at = w.created_at;
        },
        record {
          row = r;
          found = found;
          same_id = refl;
          same_title = refl;
          same_actor = refl;
          state_text = w.state_text;
          deps_text = w.deps_text;
          reason_text = w.reason_text;
          changes = c;
          created_text = w.created_text;
        },
      )

  row-IsRead :
      (t : Tables) (r : TaskRow)
      → IsSound k t
      → RowIsSound k t.history r
      → has_row r.id t.tasks ≡ true
      → IsRead t r
  row-IsRead t r s v h =
      let (r', f) = find_row_has r.id t.tasks h in
      let (w, same) = find_row_sound k r.id t.history t.tasks s.rows f in
      let (x, d) = found_row t r' w v.id s (same ∙ v.id_text) (rw (← v.id_text) f) in
      (v.id, v.id_text, x, d)

  both :
      (P Q : TaskRow → Type 0) (rs : List TaskRow) → All P rs → All Q rs → All (λ r. P r × Q r) rs
  both P Q [] a b = tt
  both P Q (r ∷ rs) a b = ((a.0, b.0), both P Q rs a.1 b.1)

  -- Every row of sound tables, in the order of `list`, can be read.
  pub order_rows-IsRead : (t : Tables) → IsSound k t → All (IsRead t) (order_rows t.tasks)
  order_rows-IsRead t s = All-order_rows _ t.tasks (
      All-map _ _ t.tasks (λ r p. row-IsRead t r s p.0 p.1)
        (both _ _ t.tasks s.rows (self_rows t.tasks)))
