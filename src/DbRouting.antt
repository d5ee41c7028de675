-- ===== src/DbRouting.antt =====
-- memora/db_routing.py: the database that a request's path names, and the router in front of the app.
pub mod Paths
pub mod Routes
mod Tests
use memora.Prelude.{
  ℕ, Bool, true, false, ◌&&◌, ◌||◌, Option, none, some, List, [], ◌∷◌, if◌then◌else◌, nat_eq,
  contains, ◌==◌, Text_comparable, text_beq,
}
use memora.Prelude.Text.{Text, codes}

abbrev pub mcp_prefix : Text
mcp_prefix = codes "/mcp"

abbrev pub mcp_slash : Text
mcp_slash = codes "/mcp/"

-- `path.startswith(prefix)` and `path[len(prefix):]`.
unfoldable pub behind : Text → Text → Option Text
behind [] path = some path
behind (c ∷ cs) [] = none
behind (c ∷ cs) (d ∷ ds) = if nat_eq c d then behind cs ds else none

abbrev pub is_empty : Text → Bool
is_empty [] = true
is_empty (c ∷ cs) = false

-- `rstrip("/")`
unfoldable pub rstrip : Text → Text
rstrip [] = []
rstrip (c ∷ cs) = let rest = rstrip cs in if is_empty rest && nat_eq c 47 then [] else c ∷ rest

-- The database of a path; `not_mcp` is the exception NotAnMcpPath.
pub data Parsed : Type 0 where
  default_db not_mcp : Parsed
  database : Text → Parsed

abbrev pub parse_rest : Text → Parsed
parse_rest rest =
    if is_empty rest then default_db else if contains rest 47 then not_mcp else database rest

abbrev pub parse_behind : Option Text → Parsed
parse_behind none = not_mcp
parse_behind (some rest) = parse_rest (rstrip rest)

unfoldable pub parse_db_from_path : Text → Parsed
parse_db_from_path path =
    if text_beq path mcp_prefix || text_beq path mcp_slash
    then default_db
    else parse_behind (behind mcp_slash path)

-- What the router does with a request: hand it to the app as it is, or under the fixed path with
-- CURRENT_DB bound, answer 404 itself, or let an exception through. `is_http` tells whether the scope's type is `http`.
pub data Routed : Type 0 where
  delegated : Text → Routed
  bound : Text → Text → Routed
  rejected : Routed
  failed : Routed

-- What `backend_for` does with a name: it returns, raises DatabaseRegistryError, or raises another
-- exception, such as DataVolumeRefused.
pub data Lookup : Type 0 where
  known unknown refused : Lookup

abbrev pub look_up : Text → Lookup → Routed
look_up name known = bound name mcp_prefix
look_up name unknown = rejected
look_up name refused = failed

abbrev pub dispatch : (Text → Lookup) → Text → Parsed → Routed
dispatch backend_for path not_mcp = delegated path
dispatch backend_for path default_db = delegated path
dispatch backend_for path (database name) = look_up name (backend_for name)

-- `make_router`
unfoldable pub route : (Text → Lookup) → Bool → Text → Routed
unfolding parse_db_from_path
route backend_for is_http path =
    if is_http then dispatch backend_for path (parse_db_from_path path) else delegated path
