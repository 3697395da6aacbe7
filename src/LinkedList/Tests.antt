-- ===== src/LinkedList/Tests.antt =====
-- Runs of the list functions, and the theorems at concrete lists.
use polaris_os.Prelude.{
  ◌==◌, if◌then◌else◌, Returns, ℕ, ◌≡◌, refl, true, false, some, [], ◌∷◌, arith,
}
use polaris_os.LinkedList.{Ptr, Store, Ends, search_loop, list_search, list_insert_sort}
use polaris_os.LinkedList.Linked.{has, IsList}
use polaris_os.LinkedList.Insert.{Grown, Fresh}
use polaris_os.LinkedList.Sort.{insort, Sorted, list_insert_sort-insort}

abbrev ends : Ends
ends = record { head = 1; tail = 2 }

-- The nodes 10 and 12 are linked; the key of a node is its address.
abbrev two_nodes : Store
two_nodes = record {
  next = λ p. if p == 1 then 10 else if p == 10 then 12 else if p == 12 then 2 else 0;
  prev = λ p. if p == 10 then 1 else if p == 12 then 10 else if p == 2 then 12 else 0;
}

abbrev key_of : Ptr → ℕ
key_of p = p

two_nodes-IsList : IsList two_nodes ends (10 ∷ 12 ∷ [])
two_nodes-IsList = record {
  linked = (refl, refl, (refl, refl, (refl, refl, tt)));
  distinct = (refl, (refl, (refl, (refl, tt))));
  not_null = refl;
}

new_node :
    (n : Ptr)
    → (n == 0) ≡ false
    → has n (1 ∷ 10 ∷ 12 ∷ 2 ∷ []) ≡ false
    → Fresh ends (10 ∷ 12 ∷ []) n
new_node n a b = record { node = a; out = b }

search_finds :
    (list_search 3 ends 12 two_nodes ≡ some true) × (list_search 3 ends 13 two_nodes ≡ some false)
unfolding list_search search_loop
search_finds = (refl, refl)

list_insert_sort-insort_example :
    Returns
      (λ h'.
        Grown two_nodes ends (10 ∷ 12 ∷ []) 11 (insort key_of 11 (10 ∷ 12 ∷ [])) h'
        × Sorted key_of (insort key_of 11 (10 ∷ 12 ∷ [])))
      (list_insert_sort 3 key_of ends 11 two_nodes)
list_insert_sort-insort_example =
    list_insert_sort-insort key_of two_nodes ends (10 ∷ 12 ∷ []) 11 3 two_nodes-IsList
      (new_node 11 refl refl) (refl, refl) (omega arith) ((refl, tt), (tt, tt))
