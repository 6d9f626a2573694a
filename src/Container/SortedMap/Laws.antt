-- ===== src/Container/SortedMap/Laws.antt =====
-- Methods of common/container/sorted_map.go: the invariant, what each reads and writes, and histories
-- of calls against a plain function from keys to values.
use go_tools.Base.{
  ◌+◌, ◌≡◌, refl, ◌∙◌, sym, true, List, [], ◌∷◌, ok, length, if◌then◌else◌, arith, Bool-cases, inl,
  inr, Returns, returns,
}
use go_tools.Base.Keys.{Ordered}
use go_tools.Base.Maps
use go_tools.Container.SortedMap.{
  SortedMap, IsValid, new_sorted_map, size, exist, find_loop, find, get, insert, delete, on_chain,
}
use go_tools.Container.SortedMap.Chain.{
  link-insert_sorted, unlink-remove_first, length-insert_sorted, on_chain-insert_sorted,
  insert_sorted-IsAscending, length-remove_first, on_chain-remove_first, remove_first-IsAscending,
  find_loop_correct, Found, ascending_unique,
}

module _ {ℓ κ} {K : Type ℓ} {V : Type κ} (o : Ordered K) where
  -- Insert keeps the chain ascending and in step with the map.
  pub insert-IsValid :
      (s : SortedMap K V) (key : K) (val : V) → IsValid o s → IsValid o (insert o s key val)
  unfolding insert
  insert-IsValid s key val v = elim (Bool-cases (exist o s key)) [
    | inl e ↦ rw e (record {
      distinct = Maps.Distinct-insert o.eq key val s.elements v.distinct;
      ascending = v.ascending;
      same_keys = λ q.
          ground (
            arith,
            v.same_keys q,
            Maps.lookup-insert o.eq key q val s.elements,
            o.eq.beq_iff key q,
          );
      same_size = ground (arith, v.same_size, Maps.length-insert o.eq key val s.elements);
    })
    | inr e ↦
        let grows : length (Maps.insert o.eq key val s.elements) ≡ length s.elements + 1 =
          ground (arith, Maps.length-insert o.eq key val s.elements) in
        rw
          (
            e,
            link-insert_sorted o (length (Maps.insert o.eq key val s.elements)) key s.head
                (omega (arith, v.same_size)),
          )
          (record {
            distinct = Maps.Distinct-insert o.eq key val s.elements v.distinct;
            ascending = insert_sorted-IsAscending o key s.head (v.same_keys key ∙ e) v.ascending;
            same_keys = λ q. ground (
              arith,
              v.same_keys q,
              on_chain-insert_sorted o key q s.head,
              Maps.lookup-insert o.eq key q val s.elements,
            );
            same_size = omega (arith, v.same_size, length-insert_sorted o key s.head);
          })
  ]

  -- Delete does so too.
  pub delete-IsValid : (s : SortedMap K V) (key : K) → IsValid o s → IsValid o (delete o s key)
  unfolding delete
  delete-IsValid s key v = elim (Bool-cases (exist o s key)) [
    | inl e ↦
        let shrinks = Maps.length-erase o.eq key s.elements v.distinct e in
        let found : on_chain o key s.head ≡ true = v.same_keys key ∙ e in
        rw
          (
            e,
            unlink-remove_first o (length (Maps.erase o.eq key s.elements)) key s.head
                (omega (arith, v.same_size)),
          )
          (record {
            distinct = Maps.Distinct-erase o.eq key s.elements v.distinct;
            ascending = remove_first-IsAscending o key s.head v.ascending;
            same_keys = λ q. ground (
              arith,
              v.same_keys q,
              on_chain-remove_first o key q s.head v.ascending,
              Maps.lookup-erase o.eq key q s.elements,
            );
            same_size = omega (arith, v.same_size, length-remove_first o key s.head found);
          })
    | inr e ↦ rw e v
  ]

  pub new_sorted_map-IsValid : IsValid o (new_sorted_map {V = V} o)
  unfolding Maps.lookup
  new_sorted_map-IsValid = record {
    distinct = tt;
    ascending = tt;
    same_keys = λ q. refl;
    same_size = refl;
  }

  -- Find never follows a nil pointer: it returns the node of the key, which stands in the chain
  -- behind the smaller keys, or nil for a key that the map does not hold.
  pub find_correct :
      (s : SortedMap K V) (key : K)
      → IsValid o s
      → Returns (Found o key (exist o s key) s.head) (find o s key)
  unfolding find
  find_correct s key v = go s.head v.same_size (v.same_keys key)
    where
      go :
          (l : List K)
          → length l ≡ size o s
          → on_chain o key l ≡ exist o s key
          → Returns
              (Found o key (exist o s key) l)
              (elim l [ [] ↦ ok [] | c ∷ next ↦ find_loop o (size o s) key (c ∷ next) ])
      go [] h k = returns (inl (sym k, refl))
      go (c ∷ l) h k = rw (← k) (find_loop_correct o (size o s) key (c ∷ l) h)

  -- A read after Insert gives the new value at its key, and the old one elsewhere.
  pub get-insert :
      (z : V) (s : SortedMap K V) (key q : K) (val : V)
      → get o z (insert o s key val) q ≡ (if o.eq.beq key q then val else get o z s q)
  unfolding get insert
  get-insert z s key q val = ground (arith, Maps.lookup-insert o.eq key q val s.elements)

  -- A read after Delete gives the zero value at its key, and the old one elsewhere.
  pub get-delete :
      (z : V) (s : SortedMap K V) (key q : K)
      → get o z (delete o s key) q ≡ (if o.eq.beq key q then z else get o z s q)
  unfolding get delete
  get-delete z s key q = ground (arith, Maps.lookup-erase o.eq key q s.elements, o.eq.beq_iff key q)

  -- The chain is a function of the set of keys: two valid maps with the same keys list them in the
  -- same order, whatever the order of the calls that made them.
  pub head_unique :
      (s t : SortedMap K V)
      → IsValid o s
      → IsValid o t
      → ((q : K) → exist o s q ≡ exist o t q)
      → s.head ≡ t.head
  head_unique s t v w same =
      ascending_unique o s.head t.head v.ascending w.ascending
        (λ q. v.same_keys q ∙ same q ∙ sym (w.same_keys q))
