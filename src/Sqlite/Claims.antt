-- ===== src/Sqlite/Claims.antt =====
-- `claim` of the SQLite board, and the claims that follow one.
use wyrtloom.Base.{◌<◌, ◌≡◌, ◌≢◌, refl, ap, ◌∙◌, arith, String, List, [], ◌∷◌}
use wyrtloom.Kanban.{TaskId, ActorId}
use wyrtloom.Sqlite.Store.{TaskRow, Board, Codec, ok, ◌>>=◌, lock, statement}
use wyrtloom.Sqlite.Write.{claim, claim_rows, claim_count, is_claimable}

claim_rows_taken :
    (key worker : String) (rs : List TaskRow) → claim_count key (claim_rows key worker rs) ≡ 0
unfolding claim_count claim_rows is_claimable
claim_rows_taken key worker [] = refl
claim_rows_taken key worker (r ∷ rs) = ground (arith, claim_rows_taken key worker rs)

claim_rows_none :
    (key worker : String) (rs : List TaskRow)
    → claim_count key rs ≡ 0
    → claim_rows key worker rs ≡ rs
unfolding claim_count claim_rows
claim_rows_none key worker [] e = refl
claim_rows_none key worker (r ∷ rs) e = ground (arith, claim_rows_none key worker rs)

module _ (k : Codec) where
  -- A claim that returned wrote the tables of `claim_rows`, and found a row to claim.
  claim_wrote :
      (id : TaskId) (w : ActorId) (b b' : Board)
      → claim k id w b ≡ (ok tt, b')
      → (b'.tables ≡ record b.tables { tasks = claim_rows (k.show_id id) w b.tables.tasks })
        × (0 < claim_count (k.show_id id) b.tables.tasks)
  unfolding claim ◌>>=◌ lock statement
  claim_wrote id w b b' e = (ground arith, ground arith)

  claim_needs_row :
      (id : TaskId) (w : ActorId) (b : Board)
      → claim_count (k.show_id id) b.tables.tasks ≡ 0
      → (claim k id w b).0 ≢ ok tt
  unfolding claim ◌>>=◌ lock statement
  claim_needs_row id w b z e = ground arith

  claim_keeps :
      (id : TaskId) (w : ActorId) (b : Board)
      → claim_count (k.show_id id) b.tables.tasks ≡ 0
      → (claim k id w b).1.tables ≡ b.tables
  unfolding claim ◌>>=◌ lock statement
  claim_keeps id w b z = ground (arith, claim_rows_none (k.show_id id) w b.tables.tasks z)

  -- Where a claim has answered `Ok(())`, there was a row to claim, and no later claim of the task on
  -- those tables, by any worker, answers `Ok(())` or changes the tables.
  pub claim_once :
      (id : TaskId) (w w' : ActorId) (b b' c : Board)
      → claim k id w b ≡ (ok tt, b')
      → c.tables ≡ b'.tables
      → (0 < claim_count (k.show_id id) b.tables.tasks)
        × ((claim k id w' c).0 ≢ ok tt)
        × ((claim k id w' c).1.tables ≡ c.tables)
  claim_once id w w' b b' c e later =
      let (wrote, found) = claim_wrote id w b b' e in
      let taken : claim_count (k.show_id id) c.tables.tasks ≡ 0 =
        ap (λ t. claim_count (k.show_id id) t.tasks) (later ∙ wrote)
        ∙ claim_rows_taken (k.show_id id) w b.tables.tasks in
      (found, claim_needs_row id w' c taken, claim_keeps id w' c taken)
