-- ===== src/Tests/Containers.antt =====
-- Lists and uuids of src/containers and src/random.cc at concrete inputs.
use indecorous.Base.{◌≡◌, refl, false, none, [], ◌∷◌, if◌then◌else◌, ◌==◌, replicate, ok}
use indecorous.Containers.Intrusive.{Heap, create, remove_node, in_a_list, link_between}
use indecorous.Containers.Intrusive.Ring.{Holds, remove_node-Holds}
use indecorous.Random.{generate, copy}

abbrev no_nodes : Heap
no_nodes = record { node = λ k. record { next = none; prev = none }; size = λ k. 0 }

abbrev empty_list : Heap
empty_list = create 1 no_nodes

-- A list at 1 of the node 5, made by the first push.
abbrev one_node : Heap
one_node = record { node = link_between 5 1 1 empty_list.node; size = λ k. if k == 1 then 1 else 0 }

one_node-Holds : Holds one_node 1 (5 ∷ [])
unfolding link_between create
one_node-Holds = record {
  ring = ((refl, refl), (refl, refl));
  distinct = ((refl, tt), (tt, tt));
  sized = refl;
}

remove_node-Holds_example :
    (h : Heap) × (remove_node 1 5 one_node ≡ ok h) × (Holds h 1 [] × (in_a_list 5 h ≡ false))
remove_node-Holds_example = remove_node-Holds 1 5 one_node [] [] one_node-Holds

generate_run :
    generate (λ k j. 7) (replicate 16 0)
    ≡ 7 ∷ 7 ∷ 7 ∷ 7 ∷ 0 ∷ 0 ∷ 0 ∷ 0 ∷ 0 ∷ 0 ∷ 0 ∷ 0 ∷ 0 ∷ 0 ∷ 0 ∷ 0 ∷ []
unfolding generate copy
generate_run = refl
