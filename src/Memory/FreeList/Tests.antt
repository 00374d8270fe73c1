-- ===== src/Memory/FreeList/Tests.antt =====
-- The intrusive list on small inputs.
use memory_allocator.Base.{◌≡◌, refl, [], ◌∷◌, arith}
use memory_allocator.Memory.FreeList.{FreeList, push_node, remove_node_if_present}
use memory_allocator.Memory.FreeList.Segments.{
  Represents, push_node-Represents, remove, member, remove_node-Represents,
}

abbrev nothing : FreeList
nothing = record { first = 0; heap = λ a. 0 }

nothing-Represents : Represents nothing []
nothing-Represents = record { chain = refl; distinct = tt }

abbrev two_nodes : FreeList
two_nodes = push_node (push_node nothing 64) 128

two_nodes-Represents : Represents two_nodes (128 ∷ 64 ∷ [])
two_nodes-Represents =
    push_node-Represents (push_node nothing 64) 128 (64 ∷ []) (omega arith) ((ground arith), tt)
      (push_node-Represents nothing 64 [] (omega arith) tt nothing-Represents)

remove_node-Represents_example :
    let (found, l) = remove_node_if_present 3 64 two_nodes in
    (found ≡ member 64 (128 ∷ 64 ∷ [])) × Represents l (remove 64 (128 ∷ 64 ∷ []))
remove_node-Represents_example =
    remove_node-Represents 3 64 two_nodes (128 ∷ 64 ∷ []) (omega arith) two_nodes-Represents
