-- ===== src/Hierarchy/Filed.antt =====
-- What a tree of memora/hierarchy.py has at a path.
use memora.Prelude.{
  ℕ, ◌≡◌, refl, sym, ap, ◌∙◌, Bool, true, false, ◌&&◌, List, [], ◌∷◌, ◌++◌, if◌then◌else◌, text_beq,
  text_beq_iff, Bool-cases, inl, inr,
}
use memora.Prelude.Text.{Text}
use mathlib.Core.List.{append_assoc, append-nil}
use memora.Hierarchy.{
  Node, node, Children, leaf, child, name_of, with_child, file_at, file_all, count,
}

abbrev pub is_path : List Text → List Text → Bool
is_path [] [] = true
is_path [] (b ∷ bs) = false
is_path (a ∷ as') [] = false
is_path (a ∷ as') (b ∷ bs) = text_beq a b && is_path as' bs

-- Whether the first path is the second or goes on below it.
abbrev pub is_below : List Text → List Text → Bool
is_below p [] = true
is_below [] (b ∷ bs) = false
is_below (a ∷ as') (b ∷ bs) = text_beq a b && is_below as' bs

pub nested_if {ℓ} :
    {B : Type ℓ} (a b : Bool) (x y : B)
    → (if a then (if b then x else y) else y) ≡ (if a && b then x else y)
nested_if true b x y = refl
nested_if false b x y = refl

module _ {ℓ} {A : Type ℓ} where
  -- What a child of that name answers, and `nothing` if there is none.
  abbrev pub of_child {κ} : {B : Type κ} → B → Text → (Node A → B) → Children A → B
  of_child nothing part f leaf = nothing
  of_child nothing part f (child n rest) =
      if text_beq (name_of n) part then f n else of_child nothing part f rest

  -- The items that are filed at a path, and how many are filed at it or below.
  abbrev pub items_at : List Text → Node A → List A
  items_at [] (node name path items children) = items
  items_at (part ∷ parts) (node name path items children) =
      of_child [] part (items_at parts) children

  abbrev pub count_at : List Text → Node A → ℕ
  count_at [] n = count n
  count_at (part ∷ parts) (node name path items children) =
      of_child 0 part (count_at parts) children

  pub name_of-file_at : (p : List Text) (x : A) (n : Node A) → name_of (file_at p x n) ≡ name_of n
  unfolding file_at
  name_of-file_at [] x (node name path items children) = refl
  name_of-file_at (a ∷ p) x (node name path items children) = refl

  -- Filing changes the child of its name, and no other.
  pub of_child-with_child {κ} :
      {B : Type κ} (nothing : B) (part q : Text) (path : List Text) (f : Node A → Node A)
      (g : Node A → B) (h : B → B)
      → ((n : Node A) → name_of (f n) ≡ name_of n)
      → ((n : Node A) → g (f n) ≡ h (g n))
      → g (node part (path ++ part ∷ []) [] leaf) ≡ nothing
      → (children : Children A)
      → of_child nothing q g (with_child part path f children) ≡ (
          if text_beq part q
          then h (of_child nothing q g children)
          else of_child nothing q g children)
  unfolding with_child
  of_child-with_child nothing part q path f g h same step fresh leaf =
      elim (Bool-cases (text_beq part q)) [
        | inl here ↦
            rw (same (node part (path ++ part ∷ []) [] leaf), here)
              (step (node part (path ++ part ∷ []) [] leaf) ∙ ap h fresh)
        | inr other ↦ rw (same (node part (path ++ part ∷ []) [] leaf), other) refl
      ]
  of_child-with_child nothing part q path f g h same step fresh (child n rest) =
      elim (Bool-cases (text_beq (name_of n) part)) [
        | inl own ↦
            let is_part = (text_beq_iff (name_of n) part).0 own in
            elim (Bool-cases (text_beq part q)) [
              | inl here ↦
                  let named : text_beq (name_of n) q ≡ true =
                    ap (λ t. text_beq t q) is_part ∙ here in
                  rw (own, same n, named, here) (step n)
              | inr other ↦
                  let named : text_beq (name_of n) q ≡ false =
                    ap (λ t. text_beq t q) is_part ∙ other in
                  rw (own, same n, named, other) refl
            ]
        | inr not_own ↦
            let ih = of_child-with_child nothing part q path f g h same step fresh rest in
            elim (Bool-cases (text_beq (name_of n) q)) [
              | inr further ↦ rw (not_own, further) ih
              | inl named ↦ elim (Bool-cases (text_beq part q)) [
                | inr other ↦ rw (not_own, named, other) refl
                | inl here ↦
                    let is_q = (text_beq_iff (name_of n) q).0 named in
                    let is_part = sym ((text_beq_iff part q).0 here) in
                    cc (not_own, (text_beq_iff (name_of n) part).1 (is_q ∙ is_part))
              ]
            ]
      ]

  fresh_items :
      (q : List Text) (name : Text) (path : List Text) → items_at q (node name path [] leaf) ≡ []
  fresh_items [] name path = refl
  fresh_items (b ∷ bs) name path = refl

  -- One filing adds the item at its own path, and nowhere else.
  items_at-file_at :
      (p q : List Text) (x : A) (n : Node A)
      → items_at q (file_at p x n) ≡ (if is_path p q then items_at q n ++ x ∷ [] else items_at q n)
  unfolding file_at
  items_at-file_at [] [] x (node name path items children) = refl
  items_at-file_at [] (b ∷ bs) x (node name path items children) = refl
  items_at-file_at (a ∷ p) [] x (node name path items children) = refl
  items_at-file_at (a ∷ p) (b ∷ bs) x (node name path items children) =
      of_child-with_child [] a b path (file_at p x) (items_at bs)
        (λ l. if is_path p bs then l ++ x ∷ [] else l) (name_of-file_at p x)
        (λ n. items_at-file_at p bs x n) (fresh_items bs a (path ++ a ∷ [])) children
      ∙ nested_if (text_beq a b) (is_path p bs) (of_child [] b (items_at bs) children ++ x ∷ [])
          (of_child [] b (items_at bs) children)

  -- The items whose path is `q`, in their order.
  abbrev pub select : (A → List Text) → List Text → List A → List A
  select paths q [] = []
  select paths q (x ∷ xs) = if is_path (paths x) q then x ∷ select paths q xs else select paths q xs

  pub items_at-file_all :
      (paths : A → List Text) (q : List Text) (xs : List A) (n : Node A)
      → items_at q (file_all paths xs n) ≡ items_at q n ++ select paths q xs
  unfolding file_all
  items_at-file_all paths q [] n = sym (append-nil (items_at q n))
  items_at-file_all paths q (x ∷ xs) n =
      items_at-file_all paths q xs (file_at (paths x) x n)
      ∙ ap (λ l. l ++ select paths q xs) (items_at-file_at (paths x) q x n)
      ∙ elim (Bool-cases (is_path (paths x) q)) [
        | inl here ↦ rw here (append_assoc (items_at q n) (x ∷ []) (select paths q xs))
        | inr other ↦ rw other refl
      ]
