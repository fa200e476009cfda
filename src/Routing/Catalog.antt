-- ===== src/Routing/Catalog.antt =====
-- What each endpoint group registers: Name and Routes of the groups under pkg/endpoints, and the
-- registry that the server builds of them (internal/server/server.go).
use api_test.Prelude.{Bool, List, [], ◌∷◌, ◌++◌, map, if◌then◌else◌}
use api_test.Std.Text.{Text, text, to_lower}
use api_test.Routing.Registry.{EndpointMeta, Endpoints, Registry, new_registry, add}

abbrev route : Text → Text → Text → Text → EndpointMeta
route group name method path = record { name = name; group = group; method = method; path = path }

abbrev pub identity_routes : Endpoints
identity_routes = record {
  name = text "identity";
  routes =
      route (text "identity") (text "whoami") (text "GET") (text "/v1/whoami")
      ∷ route (text "identity") (text "headers") (text "GET") (text "/v1/headers")
      ∷ [];
}

abbrev pub data_routes : Endpoints
data_routes = record {
  name = text "data";
  routes =
      route (text "data") (text "fixed") (text "GET") (text "/v1/fixed/{key}")
      ∷ route (text "data") (text "sized") (text "GET") (text "/v1/sized")
      ∷ route (text "data") (text "lorem") (text "GET") (text "/v1/lorem")
      ∷ [];
}

abbrev pub failure_routes : Endpoints
failure_routes = record {
  name = text "failure";
  routes =
      route (text "failure") (text "status") (text "GET") (text "/v1/status/{code}")
      ∷ route (text "failure") (text "slow") (text "GET") (text "/v1/slow")
      ∷ route (text "failure") (text "flaky") (text "GET") (text "/v1/flaky")
      ∷ [];
}

abbrev pub streaming_routes : Endpoints
streaming_routes = record {
  name = text "streaming";
  routes =
      route (text "streaming") (text "streaming_chunked") (text "GET")
        (text "/v1/streaming/chunked")
      ∷ route (text "streaming") (text "streaming_sse") (text "GET") (text "/v1/streaming/sse")
      ∷ route (text "streaming") (text "streaming_ndjson") (text "GET")
          (text "/v1/streaming/ndjson")
      ∷ [];
}

abbrev pub pagination_routes : Endpoints
pagination_routes = record {
  name = text "pagination";
  routes =
      route (text "pagination") (text "pagination_link") (text "GET") (text "/v1/pagination/link")
      ∷ route (text "pagination") (text "pagination_odata") (text "GET")
          (text "/v1/pagination/odata")
      ∷ route (text "pagination") (text "pagination_cursor") (text "GET")
          (text "/v1/pagination/cursor")
      ∷ [];
}

abbrev pub security_routes : Endpoints
security_routes = record {
  name = text "security";
  routes =
      route (text "security") (text "security_admin") (text "GET")
        (text "/v1/security/admin/secret")
      ∷ route (text "security") (text "security_fetch") (text "GET") (text "/v1/security/fetch")
      ∷ route (text "security") (text "security_big_headers") (text "GET")
          (text "/v1/security/big-headers")
      ∷ route (text "security") (text "security_redirect_to") (text "POST")
          (text "/v1/security/redirect-to")
      ∷ route (text "security") (text "security_control_chars") (text "GET")
          (text "/v1/security/control-chars")
      ∷ [];
}

abbrev pub export_routes : Endpoints
export_routes = record {
  name = text "export";
  routes =
      route (text "export") (text "export_big_body") (text "GET") (text "/v1/export/big-body")
      ∷ route (text "export") (text "export_csv") (text "GET") (text "/v1/export/csv")
      ∷ route (text "export") (text "export_long_running") (text "GET")
          (text "/v1/export/long-running")
      ∷ [];
}

abbrev pub verb_route : Text → Text → Text → Text → EndpointMeta
verb_route group prefix path method = route group (prefix ++ to_lower method) method path

-- The verbs of the echo group.
abbrev pub echo_methods : List Text
echo_methods =
    text "GET" ∷ text "POST" ∷ text "PUT" ∷ text "PATCH" ∷ text "DELETE" ∷ text "HEAD" ∷ []

unfoldable pub echo_routes : Endpoints
unfolding to_lower
echo_routes = record {
  name = text "echo";
  routes = map (verb_route (text "echo") (text "echo_") (text "/v1/echo")) echo_methods;
}

-- The verbs of the methods group.
abbrev pub method_verbs : List Text
method_verbs =
    text "GET"
    ∷ text "POST"
    ∷ text "PUT"
    ∷ text "PATCH"
    ∷ text "DELETE"
    ∷ text "HEAD"
    ∷ text "OPTIONS"
    ∷ []

unfoldable pub methods_routes : Endpoints
unfolding to_lower
methods_routes = record {
  name = text "methods";
  routes = map (verb_route (text "methods") (text "method_") (text "/v1/method/echo")) method_verbs;
}

-- Which groups the configuration enables.
pub record EndpointsConfig : Type 0 where
  pub identity : Bool
  pub data_group : Bool
  pub failure : Bool
  pub echo : Bool
  pub streaming : Bool
  pub pagination : Bool
  pub methods : Bool
  pub security : Bool
  pub export : Bool

abbrev pub add_if : Bool → Endpoints → Registry → Registry
add_if enabled g r = if enabled then add g r else r

unfoldable pub build_registry : EndpointsConfig → Registry
unfolding add new_registry echo_routes methods_routes
build_registry c =
    let r1 = add_if c.identity identity_routes new_registry in
    let r2 = add_if c.data_group data_routes r1 in
    let r3 = add_if c.failure failure_routes r2 in
    let r4 = add_if c.echo echo_routes r3 in
    let r5 = add_if c.streaming streaming_routes r4 in
    let r6 = add_if c.pagination pagination_routes r5 in
    let r7 = add_if c.methods methods_routes r6 in
    let r8 = add_if c.security security_routes r7 in add_if c.export export_routes r8
