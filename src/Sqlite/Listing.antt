-- ===== src/Sqlite/Listing.antt =====
-- What `list` returns.
use wyrtloom.Base.{ℕ, zero, suc, ◌<◌, ◌≡◌, Option, none, some, List, [], ◌∷◌, length, take}
use wyrtloom.Kanban.{TaskId, Task}
use wyrtloom.Sqlite.Store.{Board, Codec, Result, ok}
use wyrtloom.Sqlite.Decode.{Decodes}

-- How many tasks a limit lets through: the limit, but one where the limit is 0.
abbrev room : ℕ → ℕ
room zero = 1
room (suc n) = suc n

-- The tasks that a limit lets through.
abbrev pub cut : Option ℕ → List Task → List Task
cut none xs = xs
cut (some n) xs = take (room n) xs

-- There is room for one more.
abbrev HasRoom : Option ℕ → List Task → Type 0
HasRoom none out = Unit
HasRoom (some n) out = length out < room n

module _ (k : Codec) (b : Board) (quiet : b.faults ≡ []) where
  -- The ids stand for these tasks.
  abbrev pub Stand : List TaskId → List Task → Type 0
  Stand [] [] = Unit
  Stand [] (x ∷ xs) = ⊥
  Stand (i ∷ ids) [] = ⊥
  Stand (i ∷ ids) (x ∷ xs) = Decodes k b.tables i x × Stand ids xs

  abbrev returned : List Task → Result (List Task) × Board
  returned xs = (ok xs, b)
