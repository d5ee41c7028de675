-- ===== src/Hierarchy.antt =====
-- memora/hierarchy.py: the trees of memories and of dotted tags, by the paths they are filed under.
pub mod Filed
pub mod Counted
mod Tests
use memora.Prelude.{
  ℕ, ◌+◌, Bool, true, false, ◌&&◌, Option, none, some, List, [], ◌∷◌, ◌++◌, map, if◌then◌else◌,
  nat_eq, text_beq, length,
}
use memora.Prelude.Text.{Text, codes}

-- A node: its name, its path, what is filed at it, and its children in the order of the dict.
mutual
  pub data Node {ℓ} (A : Type ℓ) : Type ℓ where
    node : Text → List Text → List A → Children A → Node A

  pub data Children {ℓ} (A : Type ℓ) : Type ℓ where
    leaf : Children A
    child : Node A → Children A → Children A

-- `hierarchy` of the metadata: a mapping with a sequence as its path (some parts may be None), or
-- anything else.
pub data HierarchyField : Type 0 where
  path_of : List (Option Text) → HierarchyField
  no_path : HierarchyField

-- Metadata as `extract_hierarchy_path` reads it, its texts by `str`.
pub data Metadata : Type 0 where
  not_a_mapping : Metadata
  mapping : HierarchyField → Option Text → Option Text → Metadata

abbrev pub present : List (Option Text) → List Text
present [] = []
present (none ∷ parts) = present parts
present (some part ∷ parts) = part ∷ present parts

abbrev pub sections : Option Text → Option Text → List Text
sections none subsection = []
sections (some section) none = section ∷ []
sections (some section) (some subsection) = section ∷ subsection ∷ []

unfoldable pub extract_hierarchy_path : Metadata → List Text
extract_hierarchy_path not_a_mapping = []
extract_hierarchy_path (mapping (path_of parts) section subsection) = present parts
extract_hierarchy_path (mapping no_path section subsection) = sections section subsection

-- `tag.split(".")`
abbrev pub grow : Text → List Text → List Text
grow c [] = c ∷ []
grow c (part ∷ parts) = (c ++ part) ∷ parts

unfoldable pub split_dots : Text → List Text
split_dots [] = [] ∷ []
split_dots (c ∷ cs) =
    let parts = split_dots cs in if nat_eq c 46 then [] ∷ parts else grow (c ∷ []) parts

module _ {ℓ} {A : Type ℓ} where
  abbrev pub name_of : Node A → Text
  name_of (node name path items children) = name

  -- `children[part]`, made when it is not there, and `f` of it.
  unfoldable pub with_child : Text → List Text → (Node A → Node A) → Children A → Children A
  with_child part path f leaf = child (f (node part (path ++ part ∷ []) [] leaf)) leaf
  with_child part path f (child n rest) =
      if text_beq (name_of n) part then child (f n) rest else child n (with_child part path f rest)

  -- The walk from the root along the parts, and the append at its end.
  unfoldable pub file_at : List Text → A → Node A → Node A
  unfolding with_child
  file_at [] x (node name path items children) = node name path (items ++ x ∷ []) children
  file_at (part ∷ parts) x (node name path items children) =
      node name path items (with_child part path (file_at parts x) children)

  unfoldable pub root : Node A
  root = node (codes "root") [] [] leaf

  unfoldable pub file_all : (A → List Text) → List A → Node A → Node A
  file_all paths [] n = n
  file_all paths (x ∷ xs) n = file_all paths xs (file_at (paths x) x n)

  -- The `count` that `collapse` and `_collapse_tag_tree` give each node.
  unfoldable mutual
    pub count : Node A → ℕ
    count (node name path items children) = length items + count_children children

    pub count_children : Children A → ℕ
    count_children leaf = 0
    count_children (child n rest) = count n + count_children rest

-- `build_hierarchy_tree` up to the shape of its answer: a memory is its metadata and a payload.
unfoldable pub build_hierarchy_tree {ℓ} : {A : Type ℓ} → List (Metadata × A) → Node (Metadata × A)
build_hierarchy_tree memories = file_all (λ m. extract_hierarchy_path m.0) memories root

unfoldable pub build_tag_hierarchy : List Text → Node Text
build_tag_hierarchy tags = file_all split_dots tags root
