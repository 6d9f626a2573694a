-- ===== src/Container/SortedMap/History.antt =====
-- common/container/sorted_map.go over a history of calls, against a plain function from keys to values.
use go_tools.Base.{◌≡◌, refl, List, [], ◌∷◌, Option, none, some, if◌then◌else◌, arith}
use go_tools.Base.Keys.{Ordered}
use go_tools.Base.Maps
use go_tools.Container.SortedMap.{SortedMap, IsValid, clear, insert, delete}
use go_tools.Container.SortedMap.Laws.{insert-IsValid, delete-IsValid, new_sorted_map-IsValid}

-- A call that changes the map.
pub data Edit {ℓ κ} (K : Type ℓ) (V : Type κ) : Type (ℓ ⊔ κ) where
  insert_edit : K → V → Edit K V
  delete_edit : K → Edit K V
  clear_edit : Edit K V

module _ {ℓ κ} {K : Type ℓ} {V : Type κ} (o : Ordered K) where
  unfoldable pub apply : SortedMap K V → Edit K V → SortedMap K V
  apply s (insert_edit key val) = insert o s key val
  apply s (delete_edit key) = delete o s key
  apply s clear_edit = clear o s

  unfoldable pub run : SortedMap K V → List (Edit K V) → SortedMap K V
  run s [] = s
  run s (e ∷ es) = run (apply s e) es

  -- The same call on a function.
  abbrev pub apply_fun : (K → Option V) → Edit K V → K → Option V
  apply_fun f (insert_edit key val) q = if o.eq.beq key q then some val else f q
  apply_fun f (delete_edit key) q = if o.eq.beq key q then none else f q
  apply_fun f clear_edit q = none

  unfoldable pub run_fun : (K → Option V) → List (Edit K V) → K → Option V
  run_fun f [] = f
  run_fun f (e ∷ es) = run_fun (apply_fun f e) es

  abbrev pub reads : SortedMap K V → K → Option V
  reads s q = Maps.lookup o.eq q s.elements

  apply_correct :
      (e : Edit K V) (s : SortedMap K V) (f : K → Option V)
      → IsValid o s
      → ((q : K) → reads s q ≡ f q)
      → IsValid o (apply s e) × ((q : K) → reads (apply s e) q ≡ apply_fun f e q)
  unfolding apply insert delete Maps.lookup
  apply_correct (insert_edit key val) s f v h = (
    insert-IsValid o s key val v,
    λ q. ground (arith, h q, Maps.lookup-insert o.eq key q val s.elements),
  )
  apply_correct (delete_edit key) s f v h = (
    delete-IsValid o s key v,
    λ q. ground (arith, h q, Maps.lookup-erase o.eq key q s.elements, o.eq.beq_iff key q),
  )
  apply_correct clear_edit s f v h = (new_sorted_map-IsValid o, λ q. refl)

  -- Whatever calls are made on a valid map, it stays valid, and it reads like the function that the
  -- same calls make of what it read at first.
  pub run_correct :
      (es : List (Edit K V)) (s : SortedMap K V) (f : K → Option V)
      → IsValid o s
      → ((q : K) → reads s q ≡ f q)
      → IsValid o (run s es) × ((q : K) → reads (run s es) q ≡ run_fun f es q)
  unfolding run run_fun
  run_correct [] s f v h = (v, h)
  run_correct (e ∷ es) s f v h =
      let (v', h') = apply_correct e s f v h in run_correct es (apply s e) (apply_fun f e) v' h'
