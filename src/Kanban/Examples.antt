-- ===== src/Kanban/Examples.antt =====
-- A run of the table.
use wyrtloom.Base.{refl, [], ◌∷◌}
use wyrtloom.Kanban.{backlog, todo, ready, running, blocked, done, is_legal_transition}
use wyrtloom.Kanban.Paths.{Steps, here, step}

by_way_of_blocked : Steps backlog (todo ∷ ready ∷ running ∷ blocked ∷ done ∷ []) done
unfolding is_legal_transition
by_way_of_blocked = step refl (step refl (step refl (step refl (step refl here))))
