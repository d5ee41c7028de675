-- ===== src/DbRouting/Routes.antt =====
-- Where the router of memora/db_routing.py sends a request.
use memora.Prelude.{◌≡◌, refl, sym, ◌∙◌, true, ◌⊎◌, inl, inr, subst}
use memora.Prelude.Text.{Text}
use memora.DbRouting.{
  mcp_prefix, Parsed, default_db, not_mcp, database, parse_db_from_path, Routed, delegated, bound,
  rejected, failed, Lookup, known, unknown, refused, dispatch, look_up, route,
}
use memora.DbRouting.Paths.{Names, parse-Names, Names-parse}

abbrev IsDatabase : Parsed → Type 0
IsDatabase (database name) = Unit
IsDatabase p = ⊥

-- What becomes of a request whose path names a database.
pub data IsRouted (name : Text) : Lookup → Routed → Type 0 where
  to_store : IsRouted name known (bound name mcp_prefix)
  not_found : IsRouted name unknown rejected
  raised : IsRouted name refused failed

look_up-IsRouted : (name : Text) (l : Lookup) → IsRouted name l (look_up name l)
look_up-IsRouted name known = to_store
look_up-IsRouted name unknown = not_found
look_up-IsRouted name refused = raised

-- An HTTP request whose path is the prefix, one name and slashes reaches that database when
-- `backend_for` returns, is answered 404 when it does not know the name, and lets any other exception
-- of it through; it never goes to the default. A request with any other path goes to the app unchanged.
pub route-Names :
    (backend_for : Text → Lookup) (path : Text)
    → ((name : Text) × Names path name
        × IsRouted name (backend_for name) (route backend_for true path))
      ⊎ (((name : Text) → ¬ Names path name) × (route backend_for true path ≡ delegated path))
unfolding route
route-Names backend_for path = go (parse_db_from_path path) refl
  where
    unnamed :
        (p : Parsed)
        → parse_db_from_path path ≡ p
        → ¬ IsDatabase p
        → (name : Text) → ¬ Names path name
    unnamed p e not_db name n = not_db (subst IsDatabase (sym (parse-Names path name n) ∙ e) tt)

    go :
        (p : Parsed)
        → parse_db_from_path path ≡ p
        → ((name : Text) × Names path name
            × IsRouted name (backend_for name) (dispatch backend_for path p))
          ⊎ (((name : Text) → ¬ Names path name) × (dispatch backend_for path p ≡ delegated path))
    go default_db e = inr (unnamed default_db e (λ h. h), refl)
    go not_mcp e = inr (unnamed not_mcp e (λ h. h), refl)
    go (database name) e =
        inl (name, Names-parse path name e, look_up-IsRouted name (backend_for name))
