-- ===== src/Container/Set/Examples.antt =====
-- Set of common/container/set.go at work.
use go_tools.Base.{ℕ, ◌≡◌, refl, List, [], ◌∷◌}
use go_tools.Base.Keys.{nat_eq as e}
use go_tools.Base.Maps
use go_tools.Container.Set.{Set, new_set, push, contains, add, remove, IsValid}
use go_tools.Container.Set.Laws.{
  Edit, push_edit, add_edit, remove_edit, apply, run, after_edits, set_run,
}

abbrev edits : List (Edit ℕ)
edits = add_edit (3 ∷ 1 ∷ 3 ∷ []) ∷ push_edit 2 ∷ remove_edit 1 ∷ []

abbrev two : Set ℕ
two = record { members = (3, tt) ∷ (2, tt) ∷ [] }

edits_outcome : run e new_set edits ≡ two
unfolding run apply new_set push add remove
edits_outcome = refl

two-IsValid : IsValid e two
unfolding Maps.lookup
two-IsValid = (refl, (refl, tt))

set_run_example :
    IsValid e (run e two edits)
    × ((q : ℕ) → contains e (run e two edits) q ≡ after_edits e edits (contains e two q) q)
set_run_example = set_run e edits two two-IsValid
