-- ===== src/DbRouting/Paths.antt =====
-- The paths that memora/db_routing.py reads as a database.
use memora.Prelude.{
  ℕ, zero, suc, ◌≡◌, refl, sym, ap, ◌∙◌, false, ◌&&◌, ◌||◌, Option, none, some, [], ◌∷◌, ◌++◌,
  nat_eq, nat_eq_iff, contains, arith, Bool-cases, inl, inr, text_beq,
}
use memora.Prelude.Text.{Text}
use memora.DbRouting.{
  mcp_prefix, mcp_slash, behind, is_empty, rstrip, database, parse_rest, parse_behind,
  parse_db_from_path,
}

abbrev pub slashes : ℕ → Text
slashes zero = []
slashes (suc k) = 47 ∷ slashes k

-- A text is its stripped form and some slashes.
rstrip-slashes : (t : Text) → (k : ℕ) × (t ≡ rstrip t ++ slashes k)
unfolding rstrip
rstrip-slashes [] = (0, refl)
rstrip-slashes (c ∷ cs) =
    let (k, e) = rstrip-slashes cs in
    elim (Bool-cases (is_empty (rstrip cs) && nat_eq c 47)) [
      | inr kept ↦ (k, rw kept (ap (λ t. c ∷ t) e))
      | inl gone ↦ (suc k, rw gone (ground (arith, e, nat_eq_iff c 47)))
    ]

rstrip_only : (k : ℕ) → rstrip (slashes k) ≡ []
unfolding rstrip
rstrip_only zero = refl
rstrip_only (suc k) = ground (arith, rstrip_only k)

rstrip-append : (name : Text) (k : ℕ) → contains name 47 ≡ false → rstrip (name ++ slashes k) ≡ name
unfolding rstrip
rstrip-append [] k h = rstrip_only k
rstrip-append (c ∷ cs) k h = ground (arith, rstrip-append cs k)

behind-append : (prefix rest : Text) → behind prefix (prefix ++ rest) ≡ some rest
unfolding behind
behind-append [] rest = refl
behind-append (c ∷ cs) rest = ground (arith, behind-append cs rest)

behind-some : (prefix path rest : Text) → behind prefix path ≡ some rest → path ≡ prefix ++ rest
unfolding behind
behind-some [] path rest h = cc
behind-some (c ∷ cs) [] rest h = cc h
behind-some (c ∷ cs) (d ∷ ds) rest h = ground (arith, behind-some cs ds rest, nat_eq_iff c d)

-- A path names a database: it is `/mcp/`, a name that is not empty and has no slash, and any slashes.
pub record Names (path name : Text) : Type 0 where
  pub trailing : ℕ
  pub shape : path ≡ mcp_slash ++ (name ++ slashes trailing)
  pub one_segment : contains name 47 ≡ false
  pub some_name : is_empty name ≡ false

-- Such a path is read as its database.
pub parse-Names : (path name : Text) → Names path name → parse_db_from_path path ≡ database name
unfolding parse_db_from_path text_beq
parse-Names path name n = rw n.shape (go name n.trailing n.one_segment n.some_name)
  where
    go :
        (name : Text) (k : ℕ)
        → contains name 47 ≡ false
        → is_empty name ≡ false
        → parse_db_from_path (mcp_slash ++ (name ++ slashes k)) ≡ database name
    go [] k h e = cc e
    go (c ∷ cs) k h e =
        rw (behind-append mcp_slash (c ∷ (cs ++ slashes k)))
          (rw (rstrip-append (c ∷ cs) k h) (rw h refl))

parse_rest-database :
    (rest name : Text)
    → parse_rest rest ≡ database name
    → (rest ≡ name) × (contains name 47 ≡ false) × (is_empty name ≡ false)
parse_rest-database [] name h = cc h
parse_rest-database (c ∷ cs) name h = elim (Bool-cases (contains (c ∷ cs) 47)) [
  | inl bad ↦ cc (rw bad at h)
  | inr good ↦
      let same : c ∷ cs ≡ name = cc (rw good at h) in
      (same, ap (λ t. contains t 47) (sym same) ∙ good, ap is_empty (sym same) ∙ refl)
]

parse_behind-database :
    (rest : Option Text) (path name : Text)
    → behind mcp_slash path ≡ rest
    → parse_behind rest ≡ database name
    → Names path name
parse_behind-database none path name e h = cc h
parse_behind-database (some rest) path name e h =
    let (same, one, full) = parse_rest-database (rstrip rest) name h in
    let (k, shape) = rstrip-slashes rest in
    record {
      trailing = k;
      shape =
          behind-some mcp_slash path rest e
          ∙ ap (λ t. mcp_slash ++ t) (shape ∙ ap (λ t. t ++ slashes k) same);
      one_segment = one;
      some_name = full;
    }

-- A path that is read as a database names it.
pub Names-parse : (path name : Text) → parse_db_from_path path ≡ database name → Names path name
unfolding parse_db_from_path
Names-parse path name h = elim (Bool-cases (text_beq path mcp_prefix || text_beq path mcp_slash)) [
  | inl bare ↦ cc (rw bare at h)
  | inr other ↦ parse_behind-database (behind mcp_slash path) path name refl (rw other at h)
]
