-- ===== src/Dispatch/TryIt.antt =====
-- The requests that an operator makes up (tryIt of pkg/httpsrv/portal_tryit.go).
use api_test.Prelude.{
  ℕ, Bool, false, not, ◌&&◌, ◌||◌, List, [], ◌∷◌, ◌++◌, Option, none, some, if◌then◌else◌,
}
use api_test.Prelude.Int.{ℤ, pos, ltb_ℤ}
use api_test.Prelude.Result.{Result, ok, err, ◌>>=◌, ◌>>◌}
use api_test.Std.Text.{Text, text, is_empty, str_eq, to_lower}
use api_test.Std.Http.{Table, Response, write_json, write_error}
use api_test.Inbound.Oidc.{PortalIdentity}
use api_test.Routing.Registry.{EndpointMeta, Registry, all_routes}
use api_test.Dispatch.Captured.{new_cap_response, cap_run}
use api_test.Dispatch.Sent.{
  Sent, Target, max_body_bytes, portal_identity_to_inbound, add_values, header_add, header_set,
  cut_body, Refusal, answer,
}
use api_test.Dispatch.Replay.{is_nil, unless_none, refuse_with}
use api_test.Dispatch.Substitute.{substitute_path_params}

abbrev pub try_it_marker : Text
try_it_marker = text "X-Plexara-Try-It"

pub record TryItRequest : Type 0 where
  pub method : Text
  pub path_params : Table Text
  pub query_params : Table (List Text)
  pub headers : Table (List Text)
  pub body : Text

pub record TryItResponse : Type 0 where
  pub dispatched_to : Text
  pub method : Text
  pub status : ℕ
  pub headers : Table (List Text)
  pub body : Text
  pub body_truncated : Bool

-- What the handler reads of the request to it.
pub record Order : Type 0 where
  pub group : Text
  pub route : Text
  pub content_length : ℤ
  pub content_type : Text
  pub body : Text

-- The library's part: url.Parse, String of a URL with a query, the check of NewRequest, and the JSON
-- decoder over a reader with a limit.
pub record Library : Type 0 where
  pub parse_url : Text → Result Text (Text × Table (List Text))
  pub print_url : Text × Table (List Text) → Text
  pub check_request : Text → Text → Option Text
  pub decode : ℕ → Text → Result Text TryItRequest

unfoldable pub is_disallowed_header : Text → Bool
unfolding to_lower str_eq
is_disallowed_header name =
    str_eq (to_lower name) (text "cookie")
    || str_eq (to_lower name) (text "authorization")
    || str_eq (to_lower name) (text "set-cookie")

matching : Text → Text → List EndpointMeta → Option EndpointMeta
unfolding str_eq
matching group route_name [] = none
matching group route_name (m ∷ metas) =
    if str_eq m.group group && str_eq m.name route_name
    then some m
    else matching group route_name metas

unfoldable pub find_route : Option Registry → Text → Text → Option EndpointMeta
unfolding matching all_routes
find_route none group route_name = none
find_route (some registry) group route_name = matching group route_name (all_routes registry.groups)

-- The loop over the query parameters.
unfoldable pub try_query : Table (List Text) → Table (List Text) → Table (List Text)
unfolding add_values
try_query [] out = out
try_query ((k, vs) ∷ q) out = try_query q (add_values k vs out)

-- The loop over the headers.
unfoldable pub try_headers : Table (List Text) → Table (List Text) → Table (List Text)
unfolding is_disallowed_header header_add
try_headers [] out = out
try_headers ((k, vs) ∷ h) out =
    try_headers h (if is_disallowed_header k then out else header_add k vs out)

abbrev empty_request : TryItRequest
empty_request = record { method = []; path_params = []; query_params = []; headers = []; body = [] }

abbrev pub or_default : Text → Text → Text
or_default method default = if is_empty method then default else method

-- The request for a parsed path.
unfoldable pub dispatched :
    Option PortalIdentity → EndpointMeta → TryItRequest → Text × Table (List Text) → Sent
unfolding is_nil try_query try_headers header_set portal_identity_to_inbound
dispatched portal meta req url = record {
  request = record {
    method = or_default req.method meta.method;
    path = url.0;
    host = [];
    tls = false;
    header = header_set try_it_marker (text "true") (try_headers req.headers []);
    query = if is_nil req.query_params then url.1 else try_query req.query_params [];
  };
  identity = portal_identity_to_inbound portal;
  body = cut_body req.body;
}

unfoldable pub unless_refused : Option Text → Result Refusal (Unit {0})
unless_refused none = ok tt
unless_refused (some e) = err (400, text "construct request: " ++ e)

module _ (lib : Library) where
  -- The order's own request; the body is read only where one is announced.
  ordered : Order → Result Refusal TryItRequest
  unfolding refuse_with
  ordered order =
      if ltb_ℤ (pos 0) order.content_length || not (is_empty order.content_type)
      then refuse_with 400 (text "decode request body: ") (lib.decode max_body_bytes order.body)
      else ok empty_request

  -- What is sent for a request on a route.
  unfoldable pub try_request :
      Option PortalIdentity → EndpointMeta → TryItRequest → Result Refusal Sent
  unfolding refuse_with substitute_path_params unless_refused dispatched
  try_request portal meta req = do
    path ← refuse_with 400 [] (substitute_path_params meta.path req.path_params)
    url ← refuse_with 500 (text "parse path: ") (lib.parse_url path)
    unless_refused (lib.check_request (or_default req.method meta.method) url.0)
    ok (dispatched portal meta req url)

  unfoldable pub try_order : Option Registry → Option PortalIdentity → Order → Result Refusal Sent
  unfolding unless_none find_route ordered try_request
  try_order registry portal order = do
    meta ←
        unless_none
          (
            404,
            text "endpoint "
                ++ (order.group ++ (text "/" ++ (order.route ++ text " not registered"))),
          )
          (find_route registry order.group order.route)
    req ← ordered order
    try_request portal meta req

  -- The response of the mux, as it is shown.
  shown : Target → Sent → Response TryItResponse
  unfolding new_cap_response cap_run
  shown target sent =
      let (calls, headers) = target sent in
      let rec = cap_run calls (new_cap_response max_body_bytes) in
      write_json 200 (record {
        dispatched_to = lib.print_url (sent.request.path, sent.request.query);
        method = sent.request.method;
        status = rec.status;
        headers = headers;
        body = rec.body;
        body_truncated = rec.truncated;
      })

  unfoldable pub try_it :
      Option Target → Option Registry → Option PortalIdentity → Order → Response TryItResponse
  unfolding try_order shown
  try_it none registry portal order =
      write_error 503 (text "try-it disabled: composition did not supply a dispatch target")
  try_it (some target) registry portal order =
      answer (shown target) (try_order registry portal order)
