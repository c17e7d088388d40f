-- ===== src/Sqlite/Atomic.antt =====
-- The transaction about `transition` and `block`.
use wyrtloom.Base.{
  if◌then◌else◌, subst, ◌≡◌, refl, Option, none, some, ◌⊎◌, inl, inr, arith, Bool, true, false, ℕ,
  List, [], ◌∷◌, sym, ◌∙◌,
}
use wyrtloom.Kanban.{storage, lock_poisoned}
use wyrtloom.Sqlite.Store.{
  Tables, Board, Result, ok, err, M, durable, on_ok, ◌>>=◌, begin_immediate, commit, rollback,
  end_tx, transaction,
}
use wyrtloom.Sqlite.Runs.{Runs, Outcome}

-- On an error nothing that lasts has changed. On success no transaction was open before, what the
-- body promises holds of the new tables, and either they last or, where SQLite refused the
-- `COMMIT`, the transaction is still open over the old ones.
abbrev pub Settled {ℓ} : {A : Type ℓ} → (A → Tables → Type 0) → Board → Result A × Board → Type 0
Settled Q b (err e, b') = durable b' ≡ durable b
Settled Q b (ok a, b') =
    Q a b'.tables × (b.saved ≡ none) × ((durable b' ≡ b'.tables) ⊎ (durable b' ≡ durable b))

abbrev Begun : Board → Result (Unit {0}) × Board → Type 0
Begun b (ok _, b') = (b'.tables ≡ b.tables) × (b'.saved ≡ some b.tables) × (b.saved ≡ none)
Begun b (err e, b') = durable b' ≡ durable b

begin-Begun : (b : Board) → Begun b (begin_immediate b)
unfolding begin_immediate durable
begin-Begun b = go b.saved b.faults
  where
    go :
        (s : Option Tables) (fs : List (Option ℕ))
        → Begun
            (record b { saved = s; faults = fs })
            (begin_immediate (record b { saved = s; faults = fs }))
    go (some t) fs = refl
    go none [] = (refl, refl, refl)
    go none (none ∷ r) = (refl, refl, refl)
    go none (some c ∷ r) = refl

commit-durable :
    (b : Board) (t : Tables)
    → b.saved ≡ some t
    → ((durable (commit b) ≡ b.tables) ⊎ (durable (commit b) ≡ t)) × ((commit b).tables ≡ b.tables)
unfolding commit durable
commit-durable b t h = ground arith

rollback-durable : (b : Board) → durable (rollback b) ≡ durable b
unfolding rollback durable
rollback-durable b = ground arith

module _ {ℓ} {A : Type ℓ} (Q : A → Tables → Type 0) where
  end-Settled :
      (b : Board) (x : Result A × Board)
      → b.saved ≡ none
      → Outcome (some b.tables) Q x
      → Settled Q b (end_tx x)
  unfolding durable
  end-Settled b (ok a, b') n (q, s) =
      let c = commit-durable b' b.tables s in
      let same : durable b ≡ b.tables = rw (n, durable) in
      (
        subst (Q a) (sym c.1) q,
        n,
        elim c.0 [ inl e ↦ inl (e ∙ sym c.1) | inr e ↦ inr (e ∙ sym same) ],
      )
  end-Settled b (err e, b') n s =
      rollback-durable b' ∙ (let d : durable b' ≡ durable b = rw (n, s, durable) in d)

  Begun-Settled :
      (inner : M A) (b : Board)
      → Runs (some b.tables) b.tables inner Q
      → (x : Result (Unit {0}) × Board) → Begun b x
      → Settled Q b (on_ok x (λ _ b'. end_tx (inner b')))
  Begun-Settled inner b h (ok _, b') (et, es, n) = end-Settled b (inner b') n (h.at b' et es)
  Begun-Settled inner b h (err e, b') d = d

  locked-Settled :
      (b : Board) (p : Bool) (f : M A)
      → Settled Q b (f b)
      → Settled Q b
          (on_ok {0, ℓ} (if p then (err (storage lock_poisoned), b) else (ok tt, b)) (λ _. f))
  locked-Settled b true f h = refl
  locked-Settled b false f h = h

  -- A body that does what `Q` says is run whole or not at all.
  pub transaction-Settled :
      (inner : M A) (b : Board)
      → Runs (some b.tables) b.tables inner Q
      → Settled Q b (transaction inner b)
  unfolding transaction ◌>>=◌
  transaction-Settled inner b h =
      locked-Settled b b.poisoned _ (Begun-Settled inner b h (begin_immediate b) (begin-Begun b))
