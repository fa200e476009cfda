-- ===== src/Routing/Registry.antt =====
-- The registry that names the route of a request for the audit trail (pkg/endpoints/registry.go).
use api_test.Prelude.{Bool, true, false, ◌&&◌, ◌||◌, List, [], ◌∷◌, ◌++◌, map, ◌==◌, if◌then◌else◌}
use api_test.Std.Text.{Text, str_eq, is_empty, split}

-- The metadata of a route that routing depends on.
pub record EndpointMeta : Type 0 where
  pub name : Text
  pub group : Text
  pub method : Text
  pub path : Text

-- A group with its routes.
pub record Endpoints : Type 0 where
  pub name : Text
  pub routes : List EndpointMeta

pub record RouteEntry : Type 0 where
  pub group : Text
  pub meta : EndpointMeta
  pub segs : List Text

pub record Registry : Type 0 where
  pub groups : List Endpoints
  pub flat : List RouteEntry

unfoldable pub drop_empty : List Text → List Text
drop_empty [] = []
drop_empty (seg ∷ segs) = let rest = drop_empty segs in if is_empty seg then rest else seg ∷ rest

unfoldable pub split_path_segments : Text → List Text
unfolding split drop_empty
split_path_segments [] = []
split_path_segments (c ∷ p) = drop_empty (split b'/' (c ∷ p))

ends_in_brace : Text → Bool
ends_in_brace [] = false
ends_in_brace (c ∷ []) = c == b'}'
ends_in_brace (c ∷ d ∷ s) = ends_in_brace (d ∷ s)

-- A segment of at least two bytes, in braces.
unfoldable pub is_wildcard : Text → Bool
unfolding ends_in_brace
is_wildcard (c ∷ d ∷ s) = (c == b'{') && ends_in_brace (d ∷ s)
is_wildcard _ = false

unfoldable pub match_segments : List Text → List Text → Bool
unfolding is_wildcard str_eq
match_segments [] [] = true
match_segments (p ∷ ps) (r ∷ rs) = (is_wildcard p || str_eq p r) && match_segments ps rs
match_segments _ _ = false

unfoldable pub new_registry : Registry
new_registry = record { groups = []; flat = [] }

unfoldable pub route_entry : Text → EndpointMeta → RouteEntry
unfolding split_path_segments
route_entry group route = record {
  group = group;
  meta = route;
  segs = split_path_segments route.path;
}

unfoldable pub add : Endpoints → Registry → Registry
unfolding route_entry
add g r = record { groups = r.groups ++ g ∷ []; flat = r.flat ++ map (route_entry g.name) g.routes }

unfoldable pub first_route : Text → List Text → List RouteEntry → Text × Text
unfolding match_segments str_eq
first_route method segs [] = ([], [])
first_route method segs (e ∷ es) =
    let rest = first_route method segs es in
    if str_eq e.meta.method method && match_segments e.segs segs
    then (e.group, e.meta.name)
    else rest

unfoldable pub route_for_request : Registry → Text → Text → Text × Text
unfolding first_route split_path_segments
route_for_request r method path = first_route method (split_path_segments path) r.flat

unfoldable pub all_routes : List Endpoints → List EndpointMeta
all_routes [] = []
all_routes (g ∷ groups) = g.routes ++ all_routes groups
