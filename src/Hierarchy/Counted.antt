-- ===== src/Hierarchy/Counted.antt =====
-- The counts of a tree of memora/hierarchy.py.
use memora.Prelude.{
  ℕ, ◌+◌, ◌≡◌, refl, ap, ◌∙◌, List, [], ◌∷◌, ◌++◌, if◌then◌else◌, text_beq, Bool-cases, inl, inr,
  arith, length-append,
}
use memora.Prelude.Text.{Text}
use memora.Hierarchy.{
  Node, node, Children, leaf, child, name_of, with_child, file_at, root, file_all, count,
  count_children, Metadata, extract_hierarchy_path, build_hierarchy_tree, split_dots,
  build_tag_hierarchy,
}
use memora.Hierarchy.Filed.{
  is_below, of_child, items_at, count_at, of_child-with_child, name_of-file_at, nested_if, select,
  items_at-file_all,
}

module _ {ℓ} {A : Type ℓ} where
  count_children-with_child :
      (part : Text) (path : List Text) (f : Node A → Node A)
      → ((n : Node A) → count (f n) ≡ count n + 1)
      → (children : Children A)
      → count_children (with_child part path f children) ≡ count_children children + 1
  unfolding with_child count
  count_children-with_child part path f more leaf =
      omega (arith, more (node part (path ++ part ∷ []) [] leaf))
  count_children-with_child part path f more (child n rest) =
      elim (Bool-cases (text_beq (name_of n) part)) [
        | inl own ↦ rw own (omega (arith, more n))
        | inr other ↦ rw other (omega (arith, count_children-with_child part path f more rest))
      ]

  count-file_at : (p : List Text) (x : A) (n : Node A) → count (file_at p x n) ≡ count n + 1
  unfolding file_at count
  count-file_at [] x (node name path items children) = omega (arith, length-append items (x ∷ []))
  count-file_at (a ∷ p) x (node name path items children) =
      omega
        (arith, count_children-with_child a path (file_at p x) (λ n. count-file_at p x n) children)

  abbrev IsBare : Node A → Type 0
  IsBare (node name path items leaf) = Unit
  IsBare (node name path items (child n rest)) = ⊥

  count_at-fresh : (x : A) (q : List Text) (n : Node A) → count n ≡ 0 → IsBare n → count_at q n ≡ 0
  unfolding count
  count_at-fresh x [] n h bare = h
  count_at-fresh x (b ∷ bs) (node name path items leaf) h bare = refl
  count_at-fresh x (b ∷ bs) (node name path items (child n rest)) h bare = elim bare [ ]

  -- One filing counts at its path and above it, and nowhere else.
  count_at-file_at :
      (p q : List Text) (x : A) (n : Node A)
      → count_at q (file_at p x n) ≡ (if is_below p q then count_at q n + 1 else count_at q n)
  unfolding file_at count
  count_at-file_at p [] x n = count-file_at p x n
  count_at-file_at [] (b ∷ bs) x (node name path items children) = refl
  count_at-file_at (a ∷ p) (b ∷ bs) x (node name path items children) =
      of_child-with_child 0 a b path (file_at p x) (count_at bs)
        (λ k. if is_below p bs then k + 1 else k) (name_of-file_at p x)
        (λ n. count_at-file_at p bs x n)
        (count_at-fresh x bs (node a (path ++ a ∷ []) [] leaf) refl tt) children
      ∙ nested_if (text_beq a b) (is_below p bs) (of_child 0 b (count_at bs) children + 1)
          (of_child 0 b (count_at bs) children)

  -- How many items have a path at `q` or below.
  abbrev pub below : (A → List Text) → List Text → List A → ℕ
  below paths q [] = 0
  below paths q (x ∷ xs) = (if is_below (paths x) q then 1 else 0) + below paths q xs

  count_at-file_all :
      (paths : A → List Text) (q : List Text) (xs : List A) (n : Node A)
      → count_at q (file_all paths xs n) ≡ count_at q n + below paths q xs
  unfolding file_all
  count_at-file_all paths q [] n = omega arith
  count_at-file_all paths q (x ∷ xs) n =
      count_at-file_all paths q xs (file_at (paths x) x n)
      ∙ ap (λ k. k + below paths q xs) (count_at-file_at (paths x) q x n)
      ∙ elim (Bool-cases (is_below (paths x) q)) [
        | inl here ↦ rw here (omega arith)
        | inr other ↦ rw other (omega arith)
      ]

-- The items at a path of a fresh root, and their number.
root_items {ℓ} : {A : Type ℓ} (q : List Text) (n : Node A) → n ≡ root → items_at q n ≡ []
unfolding root
root_items [] n e = ap (items_at []) e
root_items (b ∷ bs) n e = ap (items_at (b ∷ bs)) e

root_count {ℓ} : {A : Type ℓ} (q : List Text) (n : Node A) → n ≡ root → count_at q n ≡ 0
unfolding root count
root_count [] n e = ap (count_at []) e
root_count (b ∷ bs) n e = ap (count_at (b ∷ bs)) e

-- The trees file each memory at the path of its metadata and each tag at its dotted parts: at every
-- path stand exactly the memories, or tags, of that path, in their order, and the count of the node is
-- the number of those at the path or below it.
pub build_hierarchy_tree_lem {ℓ} :
    {A : Type ℓ} (memories : List (Metadata × A)) (tags : List Text) (q : List Text)
    → (items_at q (build_hierarchy_tree memories)
        ≡ select (λ m. extract_hierarchy_path m.0) q memories)
      × (count_at q (build_hierarchy_tree memories)
          ≡ below (λ m. extract_hierarchy_path m.0) q memories)
      × (items_at q (build_tag_hierarchy tags) ≡ select split_dots q tags)
      × (count_at q (build_tag_hierarchy tags) ≡ below split_dots q tags)
unfolding build_hierarchy_tree build_tag_hierarchy
build_hierarchy_tree_lem memories tags q = (
  items_at-file_all (λ m. extract_hierarchy_path m.0) q memories root
      ∙ ap (λ l. l ++ select (λ m. extract_hierarchy_path m.0) q memories) (root_items q root refl),
  count_at-file_all (λ m. extract_hierarchy_path m.0) q memories root
      ∙ ap (λ k. k + below (λ m. extract_hierarchy_path m.0) q memories) (root_count q root refl)
      ∙ omega arith,
  items_at-file_all split_dots q tags root
      ∙ ap (λ l. l ++ select split_dots q tags) (root_items q root refl),
  count_at-file_all split_dots q tags root
      ∙ ap (λ k. k + below split_dots q tags) (root_count q root refl)
      ∙ omega arith,
)
