-- ===== src/Middleware/Cors.antt =====
-- CORS headers (pkg/httpsrv/cors.go), which wrap the whole mux (mux.go), and the endpoint that
-- they hide from OPTIONS requests (pkg/endpoints/methods).
use api_test.Prelude.{Bool, ◌&&◌, List, [], ◌∷◌, ◌++◌, if◌then◌else◌}
use api_test.Std.Text.{Text, text, str_eq, contains}
use api_test.Std.Http.{Request, Response, Table, json, nothing, json_headers, header_get}

abbrev pub cors_headers : Table Text
cors_headers =
    (text "Access-Control-Allow-Origin", text "*")
    ∷ (text "Access-Control-Allow-Methods", text "GET, POST, PUT, PATCH, DELETE, HEAD, OPTIONS")
    ∷ (
      text "Access-Control-Allow-Headers",
      text "Authorization, Content-Type, X-API-Key, X-Request-Id",
    )
    ∷ (text "Access-Control-Expose-Headers", text "X-Request-Id")
    ∷ (text "Access-Control-Max-Age", text "600")
    ∷ []

-- CORS
unfoldable pub cors {ℓ} : {A : Type ℓ} → (Request → Response A) → Request → Response A
cors next r =
    if str_eq r.method (text "OPTIONS")
    then record { status = 204; headers = cors_headers; body = nothing }
    else let response = next r in record response { headers = cors_headers ++ response.headers }

-- isBrowserRoot
unfoldable pub is_browser_root : Request → Bool
is_browser_root r =
    str_eq r.method (text "GET")
    && str_eq r.path (text "/")
    && contains (header_get r.header (text "Accept")) (text "text/html")

-- BrowserRedirect; the body of a redirect is not modelled.
unfoldable pub browser_redirect {ℓ} :
    {A : Type ℓ} → Text → (Request → Response A) → Request → Response A
unfolding is_browser_root
browser_redirect portal_path next r =
    if is_browser_root r
    then record { status = 302; headers = (text "Location", portal_path) ∷ []; body = nothing }
    else next r

-- The handler that BuildMux returns, around the mux.
unfoldable pub build_mux {ℓ} : {A : Type ℓ} → Bool → (Request → Response A) → Request → Response A
unfolding cors browser_redirect
build_mux portal mux = cors (if portal then browser_redirect (text "/portal/") mux else mux)

pub record MethodResponse : Type 0 where
  pub method : Text
  pub path : Text
  pub query : Table (List Text)

abbrev pub supported_methods : Text
supported_methods = text "GET, POST, PUT, PATCH, DELETE, HEAD, OPTIONS"

-- The handler of /v1/method/echo
unfoldable pub method_echo : Request → Response MethodResponse
method_echo r = record {
  status = 200;
  headers =
      json_headers
      ++ (if str_eq r.method (text "OPTIONS") then (text "Allow", supported_methods) ∷ [] else []);
  body =
      if str_eq r.method (text "HEAD")
      then nothing
      else json (record { method = r.method; path = r.path; query = r.query });
}
