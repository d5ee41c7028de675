-- ===== src/DbRouting/Tests.antt =====
-- Requests to memora/db_routing.py, and its theorem applied to one.
use memora.Prelude.{if◌then◌else◌, ◌≡◌, refl, true, ◌⊎◌, text_beq}
use memora.Prelude.Text.{Text, codes}
use memora.DbRouting.{
  behind, rstrip, parse_db_from_path, database, not_mcp, default_db, route, Lookup, known, unknown,
  delegated,
}
use memora.DbRouting.Paths.{Names}
use memora.DbRouting.Routes.{IsRouted, route-Names}

test_alpha : parse_db_from_path (codes "/mcp/alpha/") ≡ database (codes "alpha")
unfolding parse_db_from_path behind rstrip text_beq
test_alpha = refl

test_alias : parse_db_from_path (codes "/mcpbeta") ≡ not_mcp
unfolding parse_db_from_path behind rstrip text_beq
test_alias = refl

test_segments : parse_db_from_path (codes "/mcp/alpha/x") ≡ not_mcp
unfolding parse_db_from_path behind rstrip text_beq
test_segments = refl

test_bare : parse_db_from_path (codes "/mcp//") ≡ default_db
unfolding parse_db_from_path behind rstrip text_beq
test_bare = refl

abbrev only_alpha : Text → Lookup
only_alpha name = if text_beq name (codes "alpha") then known else unknown

route-Names_example :
    ((name : Text) × Names (codes "/mcp/beta") name
      × IsRouted name (only_alpha name) (route only_alpha true (codes "/mcp/beta")))
    ⊎ (((name : Text) → ¬ Names (codes "/mcp/beta") name)
        × (route only_alpha true (codes "/mcp/beta") ≡ delegated (codes "/mcp/beta")))
route-Names_example = route-Names only_alpha (codes "/mcp/beta")
