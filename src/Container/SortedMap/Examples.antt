-- ===== src/Container/SortedMap/Examples.antt =====
-- common/container/sorted_map.go at work: keys that come in any order and leave again.
use mathlib.Core.Path.{subst}
use native.Mathlib.Omega.{arith}
use go_tools.Base.{ℕ, ◌≡◌, refl, List, [], ◌∷◌, panic, Returns, if◌then◌else◌}
use go_tools.Base.Keys.{nat_ordered as o}
use go_tools.Base.Maps
use go_tools.Container.SortedMap.{
  SortedMap, IsValid, new_sorted_map, exist, find, get, insert, delete,
}
use go_tools.Container.SortedMap.Chain.{Found}
use go_tools.Container.SortedMap.Laws.{
  insert-IsValid, delete-IsValid, new_sorted_map-IsValid, find_correct, get-insert, get-delete,
}
use go_tools.Container.SortedMap.History.{
  Edit, insert_edit, delete_edit, run, run_fun, apply, reads, run_correct,
}

abbrev edits : List (Edit ℕ ℕ)
edits =
    insert_edit 5 50
    ∷ insert_edit 2 20
    ∷ insert_edit 9 90
    ∷ insert_edit 5 51
    ∷ delete_edit 2
    ∷ insert_edit 7 70
    ∷ []

abbrev three : SortedMap ℕ ℕ
three = record { elements = (5, 51) ∷ (9, 90) ∷ (7, 70) ∷ []; head = 5 ∷ 7 ∷ 9 ∷ [] }

edits_outcome : run o (new_sorted_map o) edits ≡ three
unfolding run apply insert delete Maps.lookup Maps.insert Maps.erase
edits_outcome = refl

three-IsValid : IsValid o three
three-IsValid =
    subst (IsValid o) edits_outcome
      (run_correct o edits (new_sorted_map o) (reads o (new_sorted_map o))
        (new_sorted_map-IsValid o) (λ q. refl)).0

-- On a map whose chain is too short Find follows nil.
find_broken : find o (record three { head = 5 ∷ [] }) 9 ≡ panic
unfolding find
find_broken = refl

find_correct_example : Returns (Found o 7 (exist o three 7) three.head) (find o three 7)
find_correct_example = find_correct o three 7 three-IsValid

get-insert_example :
    get o 0 (insert o three 6 60) 7 ≡ (if o.eq.beq 6 7 then 60 else get o 0 three 7)
get-insert_example = get-insert o 0 three 6 7 60

get-delete_example : get o 0 (delete o three 7) 7 ≡ (if o.eq.beq 7 7 then 0 else get o 0 three 7)
get-delete_example = get-delete o 0 three 7 7

-- The key 5 leaves and comes back, behind the others in the map.
abbrev again : SortedMap ℕ ℕ
again = record { elements = (9, 90) ∷ (7, 70) ∷ (5, 52) ∷ []; head = 5 ∷ 7 ∷ 9 ∷ [] }

again_outcome : insert o (delete o three 5) 5 52 ≡ again
unfolding insert delete Maps.lookup Maps.insert Maps.erase
again_outcome = refl

again-IsValid : IsValid o again
again-IsValid =
    subst (IsValid o) again_outcome
      (insert-IsValid o (delete o three 5) 5 52 (delete-IsValid o three 5 three-IsValid))

same_keys : (q : ℕ) → exist o three q ≡ exist o again q
unfolding Maps.lookup
same_keys q = ground arith

run_correct_example :
    IsValid o (run o three edits)
    × ((q : ℕ) → reads o (run o three edits) q ≡ run_fun o (reads o three) edits q)
run_correct_example = run_correct o edits three (reads o three) three-IsValid (λ q. refl)
