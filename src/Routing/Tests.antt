-- ===== src/Routing/Tests.antt =====
-- A request that the registry resolves.
use api_test.Prelude.{◌≡◌, refl, true, false, [], ◌∷◌}
use api_test.Std.Text.{text, str_eq, split}
use api_test.Routing.Registry.{
  RouteEntry, new_registry, add, route_entry, is_wildcard, match_segments, route_for_request,
  split_path_segments, drop_empty,
}
use api_test.Routing.Catalog.{EndpointsConfig, build_registry}
use api_test.Routing.Resolve.{Mem, here, there, serves}
use api_test.Routing.Unambiguous.{build_registry-Mem}

abbrev config : EndpointsConfig
config = record {
  identity = true;
  data_group = true;
  failure = false;
  echo = false;
  streaming = true;
  pagination = false;
  methods = false;
  security = false;
  export = false;
}

abbrev fixed_entry : RouteEntry
fixed_entry = record {
  group = text "data";
  meta = record {
    name = text "fixed";
    group = text "data";
    method = text "GET";
    path = text "/v1/fixed/{key}";
  };
  segs = text "v1" ∷ text "fixed" ∷ text "{key}" ∷ [];
}

fixed-Mem : Mem fixed_entry (build_registry config).flat
unfolding build_registry add new_registry route_entry split_path_segments drop_empty split
fixed-Mem = there _ (there _ (here _))

serves-fixed : serves fixed_entry (text "GET") (split_path_segments (text "/v1/fixed/abc")) ≡ true
unfolding serves match_segments is_wildcard str_eq split_path_segments drop_empty split
serves-fixed = refl

build_registry-Mem_example :
    route_for_request (build_registry config) (text "GET") (text "/v1/fixed/abc")
    ≡ (text "data", text "fixed")
build_registry-Mem_example =
    build_registry-Mem config fixed_entry (text "GET") (text "/v1/fixed/abc") fixed-Mem serves-fixed
