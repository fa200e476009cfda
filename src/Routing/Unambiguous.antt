-- ===== src/Routing/Unambiguous.antt =====
-- The server's routes, whichever groups are enabled: every request has at most one.
use api_test.Prelude.{◌≡◌, refl, Bool, true, false, List, [], ◌∷◌, map, arith}
use mathlib.Core.List.{append-nil}
use api_test.Prelude.Sublists.{
  Sublist, empty, skip, keep, Sublist_refl, Sublist_none, Sublist_append,
}
use api_test.Std.Text.{Text, str_eq, split, to_lower}
use api_test.Routing.Registry.{
  Endpoints, RouteEntry, Registry, new_registry, add, is_wildcard, route_for_request,
  split_path_segments, drop_empty, route_entry,
}
use api_test.Routing.Catalog.{
  EndpointsConfig, add_if, build_registry, echo_routes, methods_routes, identity_routes,
  data_routes, failure_routes, streaming_routes, pagination_routes, security_routes, export_routes,
}
use api_test.Routing.Resolve.{Mem, serves, unambiguous, clashes, route_for_request-Mem}

all_enabled : EndpointsConfig
all_enabled = record {
  identity = true;
  data_group = true;
  failure = true;
  echo = true;
  streaming = true;
  pagination = true;
  methods = true;
  security = true;
  export = true;
}

everything-unambiguous : unambiguous (build_registry all_enabled).flat ≡ true
unfolding all_enabled unambiguous build_registry add new_registry echo_routes methods_routes
    to_lower route_entry split_path_segments drop_empty split is_wildcard str_eq
everything-unambiguous = refl

clashes-Sublist :
    (e : RouteEntry) {es fs : List RouteEntry}
    → Sublist es fs
    → clashes e fs ≡ false
    → clashes e es ≡ false
unfolding clashes
clashes-Sublist e empty h = refl
clashes-Sublist e (skip x s) h = clashes-Sublist e s (ground arith)
clashes-Sublist e (keep x s) h = ground (arith, clashes-Sublist e s)

unambiguous-Sublist :
    {es fs : List RouteEntry} → Sublist es fs → unambiguous fs ≡ true → unambiguous es ≡ true
unfolding unambiguous
unambiguous-Sublist empty h = refl
unambiguous-Sublist (skip x s) h = unambiguous-Sublist s (ground arith)
unambiguous-Sublist (keep x s) h = ground (arith, unambiguous-Sublist s, clashes-Sublist x s)

-- A group that is left out leaves a part of the routes.
flat-add_if :
    (enabled : Bool) (g : Endpoints) (r s : Registry)
    → Sublist r.flat s.flat
    → Sublist (add_if enabled g r).flat (add_if true g s).flat
unfolding add
flat-add_if true g r s h = Sublist_append h (Sublist_refl _)
flat-add_if false g r s h = rw (← append-nil r.flat) (Sublist_append h (Sublist_none _))

-- The groups in the order of registration, each with its flag.
flagged_groups : EndpointsConfig → List (Bool × Endpoints)
unfolding echo_routes methods_routes
flagged_groups c =
    (c.identity, identity_routes)
    ∷ (c.data_group, data_routes)
    ∷ (c.failure, failure_routes)
    ∷ (c.echo, echo_routes)
    ∷ (c.streaming, streaming_routes)
    ∷ (c.pagination, pagination_routes)
    ∷ (c.methods, methods_routes)
    ∷ (c.security, security_routes)
    ∷ (c.export, export_routes)
    ∷ []

add_flagged : List (Bool × Endpoints) → Registry → Registry
add_flagged [] r = r
add_flagged ((enabled, g) ∷ gs) r = add_flagged gs (add_if enabled g r)

all_on : List (Bool × Endpoints) → List (Bool × Endpoints)
all_on = map (λ flagged. (true, flagged.1))

flat-add_flagged :
    (gs : List (Bool × Endpoints)) (r s : Registry)
    → Sublist r.flat s.flat
    → Sublist (add_flagged gs r).flat (add_flagged (all_on gs) s).flat
unfolding add_flagged all_on
flat-add_flagged [] r s h = h
flat-add_flagged ((enabled, g) ∷ gs) r s h =
    flat-add_flagged gs (add_if enabled g r) (add_if true g s) (flat-add_if enabled g r s h)

build_registry-Sublist :
    (c : EndpointsConfig) → Sublist (build_registry c).flat (build_registry all_enabled).flat
unfolding build_registry all_enabled flagged_groups add_flagged all_on
build_registry-Sublist c =
    flat-add_flagged (flagged_groups c) new_registry new_registry (Sublist_refl new_registry.flat)

-- Whichever groups are enabled, the audit trail names a request after the one registered route
-- that its method and path match, whatever the order of registration.
pub build_registry-Mem :
    (c : EndpointsConfig) (e : RouteEntry) (method path : Text)
    → Mem e (build_registry c).flat
    → serves e method (split_path_segments path) ≡ true
    → route_for_request (build_registry c) method path ≡ (e.group, e.meta.name)
build_registry-Mem c e method path m h =
    route_for_request-Mem (build_registry c) e method path
      (unambiguous-Sublist (build_registry-Sublist c) everything-unambiguous) m h
