-- ===== src/WriteGate/Registry.antt =====
-- `gate_for_key` and `check_registry_aliases` of memora/write_gate.py.
use memora.Prelude.{
  refl, false, contains, arith, nat_eq_iff, String, ◌≡◌, Bool, Option, none, some, List, [], ◌∷◌,
  All, inl, inr, Option-cases, if◌then◌else◌, ◌≢◌, ◌++◌, ℕ_comparable, Text_comparable, ◌==◌,
  String_comparable, lookup, insert, lookup-insert_self, lookup-insert-ne_none,
}
use memora.Prelude.Text.{Text, codes}
use memora.WriteGate.{WriteGate, new_gate, apply_start_state}

abbrev pub Gates : Type 0
Gates = List (String × WriteGate)

-- MEMORA_READONLY_DBS and the freeze files, as tests on a store's name.
module _ (readonly freeze_file : String → Bool) where
  start_named : Option String → WriteGate → WriteGate
  start_named none g = g
  start_named (some name) g = apply_start_state readonly freeze_file name g

  -- The gate of a key that is there: a name is attached once.
  attach : Option String → Option String → WriteGate → WriteGate
  attach none held g = g
  attach (some name) (some old) g = g
  attach (some name) none g =
      apply_start_state readonly freeze_file name (record g { name = some name })

  gate_of : Option String → Option WriteGate → WriteGate
  unfolding start_named attach
  gate_of name none = start_named name (new_gate name none)
  gate_of name (some g) = attach name g.name g

  -- The gate that `gate_for_key` returns, and the table it leaves.
  pub gate_for_key : String → Option String → Gates → WriteGate × Gates
  unfolding gate_of
  gate_for_key key name gates = let g = gate_of name (lookup key gates) in (g, insert key g gates)

  -- The gate that is returned is the one that the table holds from then on.
  pub lookup-gate_for_key :
      (key : String) (name : Option String) (gates : Gates)
      → lookup key (gate_for_key key name gates).1 ≡ some (gate_for_key key name gates).0
  unfolding gate_for_key
  lookup-gate_for_key key name gates = lookup-insert_self key _ gates

  -- Asking again under a name does not change the gate: what froze it at the start is not applied a
  -- second time, so a thaw is not undone.
  pub gate_for_key_again :
      (key : String) (name : Option String) (g : WriteGate) (old : String) (gates : Gates)
      → lookup key gates ≡ some g
      → g.name ≡ some old
      → (gate_for_key key name gates).0 ≡ g
  unfolding gate_for_key
  gate_for_key_again key none g old gates e f = rw e
  gate_for_key_again key (some name) g old gates e f = rw e (rw f)

-- `uri.startswith(prefix)`
drop_prefix : Text → Text → Option Text
drop_prefix [] t = some t
drop_prefix (c ∷ p) [] = none
drop_prefix (c ∷ p) (d ∷ t) = if c == d then drop_prefix p t else none

-- `rest.split("/", 1)[-1]`: what follows the first slash, or all of it without one.
after_slash : Text → Text → Text
after_slash whole [] = whole
after_slash whole (c ∷ t) = if c == b'/' then t else after_slash whole t

-- What identifies the store of a registry entry. `local_path` is `parse_backend_uri` with the real
-- path of a local store's file, `none` for a backend that is not local.
unfoldable pub ident : (Text → Option Text) → Text → Option Text
unfolding drop_prefix after_slash
ident local_path uri = elim (drop_prefix (codes "d1://") uri) [
  | some rest ↦ some (codes "d1:" ++ after_slash rest rest)
  | none ↦ elim (drop_prefix (codes "s3://") uri) [
    | some rest ↦ none
    | none ↦ elim (local_path uri) [ some path ↦ some (codes "sqlite:" ++ path) | none ↦ none ]
  ]
]

-- The loop of `check_registry_aliases` over the registry; a refusal names the two entries.
check_aliases :
    (Text → Option Text) → List (Text × String) → List (String × Text) → Option (String × String)
check_aliases local_path seen [] = none
check_aliases local_path seen ((name, uri) ∷ rest) = elim (ident local_path uri) [
  | none ↦ check_aliases local_path seen rest
  | some id ↦ elim (lookup id seen) [
    | some other ↦ some (other, name)
    | none ↦ check_aliases local_path (insert id name seen) rest
  ]
]

unfoldable pub check_registry_aliases :
    (Text → Option Text) → List (String × Text) → Option (String × String)
unfolding check_aliases ident
check_registry_aliases local_path registry = check_aliases local_path [] registry

-- What a registry entry names, told by its spelling: a D1 database by its id, with or without an account
-- before it, or the file of a local backend by its real path. An s3:// entry, and an entry whose
-- backend is not local, names nothing here.
pub data Names (local_path : Text → Option Text) (uri : Text) : Text → Type 0 where
  d1_account :
      (account id : Text)
      → contains account b'/' ≡ false
      → uri ≡ codes "d1://" ++ (account ++ b'/' ∷ id)
      → Names local_path uri (codes "d1:" ++ id)
  d1_bare :
      (id : Text)
      → contains id b'/' ≡ false
      → uri ≡ codes "d1://" ++ id
      → Names local_path uri (codes "d1:" ++ id)
  local_file :
      (path : Text)
      → ((rest : Text) → uri ≢ codes "d1://" ++ rest)
      → ((rest : Text) → uri ≢ codes "s3://" ++ rest)
      → local_path uri ≡ some path
      → Names local_path uri (codes "sqlite:" ++ path)

drop_prefix-some : (p t rest : Text) → drop_prefix p t ≡ some rest → t ≡ p ++ rest
unfolding drop_prefix
drop_prefix-some [] t rest h = cc
drop_prefix-some (c ∷ p) [] rest h = cc h
drop_prefix-some (c ∷ p) (d ∷ t) rest h = ground (arith, drop_prefix-some p t rest, nat_eq_iff c d)

drop_prefix-none : (p t : Text) → ((rest : Text) → t ≢ p ++ rest) → drop_prefix p t ≡ none
drop_prefix-none p t h = elim (Option-cases (drop_prefix p t)) [
  | inl e ↦ e
  | inr (rest, e) ↦ absurd (h rest (drop_prefix-some p t rest e))
]

after_slash-account :
    (whole account id : Text)
    → contains account b'/' ≡ false
    → after_slash whole (account ++ b'/' ∷ id) ≡ id
unfolding after_slash
after_slash-account whole [] id h = refl
after_slash-account whole (c ∷ account) id h = ground (arith, after_slash-account whole account id)

after_slash-bare : (whole t : Text) → contains t b'/' ≡ false → after_slash whole t ≡ whole
unfolding after_slash
after_slash-bare whole [] h = refl
after_slash-bare whole (c ∷ t) h = ground (arith, after_slash-bare whole t)

module _ (local_path : Text → Option Text) where
  ident-Names : (uri id : Text) → Names local_path uri id → ident local_path uri ≡ some id
  unfolding ident
  ident-Names uri id (d1_account account db no_slash e) =
      rw e (rw (after_slash-account (account ++ b'/' ∷ db) account db no_slash) refl)
  ident-Names uri id (d1_bare db no_slash e) = rw e (rw (after_slash-bare db db no_slash) refl)
  ident-Names uri id (local_file path no_d1 no_s3 e) =
      rw (drop_prefix-none (codes "d1://") uri no_d1)
        (rw (drop_prefix-none (codes "s3://") uri no_s3) (rw e refl))

  -- No entry of the list names the store `id`.
  abbrev Avoids : Text → List (String × Text) → Type 0
  Avoids id = All (λ entry. ¬ Names local_path entry.1 id)

  -- Entries that name a store name different ones.
  abbrev pub NoAlias : List (String × Text) → Type 0
  NoAlias [] = Unit
  NoAlias ((name, uri) ∷ rest) =
      ((id : Text) → Names local_path uri id → Avoids id rest) × NoAlias rest

  -- The entries of `rest` are told apart from those already seen, and from one another.
  aliases_sound :
      (seen : List (Text × String)) (rest : List (String × Text))
      → check_aliases local_path seen rest ≡ none
      → NoAlias rest × ((id : Text) → lookup id seen ≢ none → Avoids id rest)
  unfolding check_aliases
  aliases_sound seen [] h = (tt, λ id k. tt)
  aliases_sound seen ((name, uri) ∷ rest) h = elim (Option-cases (ident local_path uri)) [
    | inl e ↦
        let ih = aliases_sound seen rest (rw (e, check_aliases) at h) in
        let nameless : (id : Text) → ¬ Names local_path uri id =
          λ id q. let k = ident-Names uri id q in cc in
        (((λ id q. absurd (nameless id q)), ih.0), λ id k. (nameless id, ih.1 id k))
    | inr (id, e) ↦ elim (Option-cases (lookup id seen)) [
      | inr (other, found) ↦ cc (rw (e, found, check_aliases) at h)
      | inl free ↦
          let ih = aliases_sound (insert id name seen) rest (rw (e, free, check_aliases) at h) in
          (
            (
              (λ id' q.
                  let k = ident-Names uri id' q in
                  let same : id ≡ id' = cc in ih.1 id' (λ n. cc (lookup-insert_self id name seen))),
              ih.0,
            ),
            λ id' k. (
              (λ q. let same = ident-Names uri id' q in k cc),
              ih.1 id' (lookup-insert-ne_none id id' name seen k),
            ),
          )
    ]
  ]

  -- A registry is accepted only if no two of its entries name one D1 database, by its id, or one local
  -- file, by its real path. Entries of object stores are not compared.
  pub check_registry_aliases-NoAlias :
      (registry : List (String × Text))
      → check_registry_aliases local_path registry ≡ none
      → NoAlias registry
  unfolding check_registry_aliases
  check_registry_aliases-NoAlias registry h = (aliases_sound [] registry h).0
