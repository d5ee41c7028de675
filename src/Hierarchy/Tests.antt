-- ===== src/Hierarchy/Tests.antt =====
-- Trees of memora/hierarchy.py, and the theorem applied to them.
use memora.Prelude.{ℕ, ◌≡◌, refl, none, some, List, [], ◌∷◌, text_beq}
use memora.Prelude.Text.{Text, codes}
use memora.Hierarchy.{
  Metadata, mapping, no_path, path_of, not_a_mapping, build_hierarchy_tree, extract_hierarchy_path,
  build_tag_hierarchy, split_dots, file_all, file_at, with_child, root, count,
}
use memora.Hierarchy.Filed.{items_at, count_at, select}
use memora.Hierarchy.Counted.{below, build_hierarchy_tree_lem}

abbrev memories : List (Metadata × ℕ)
memories =
    (mapping no_path (some (codes "work")) none, 1)
    ∷ (mapping (path_of (some (codes "work") ∷ none ∷ some (codes "plan") ∷ [])) none none, 2)
    ∷ (not_a_mapping, 3)
    ∷ []

abbrev tags : List Text
tags = codes "a.b" ∷ codes "a" ∷ codes "a.b" ∷ []

test_count : count_at (codes "a" ∷ []) (build_tag_hierarchy tags) ≡ 3
unfolding build_tag_hierarchy split_dots file_all file_at with_child root count text_beq
test_count = refl

test_path : extract_hierarchy_path (mapping no_path none (some (codes "x"))) ≡ []
unfolding extract_hierarchy_path
test_path = refl

build_hierarchy_tree_lem_example :
    (items_at (codes "work" ∷ []) (build_hierarchy_tree memories)
      ≡ select (λ m. extract_hierarchy_path m.0) (codes "work" ∷ []) memories)
    × (count_at (codes "work" ∷ []) (build_hierarchy_tree memories)
        ≡ below (λ m. extract_hierarchy_path m.0) (codes "work" ∷ []) memories)
    × (items_at (codes "work" ∷ []) (build_tag_hierarchy tags)
        ≡ select split_dots (codes "work" ∷ []) tags)
    × (count_at (codes "work" ∷ []) (build_tag_hierarchy tags)
        ≡ below split_dots (codes "work" ∷ []) tags)
build_hierarchy_tree_lem_example = build_hierarchy_tree_lem memories tags (codes "work" ∷ [])
