-- ===== src/App/Middleware/Security.antt =====
-- crates/app/src/middleware/security.rs, version.rs and request_id.rs: the nonce of the content
-- security policy, and the headers that the layers of `tower_http` set. A layer acts on a response.
pub mod Headers
use todo_rust.Prelude.{Bool, List, Option, if◌then◌else◌, none, some, ℕ, ◌++◌, ◌≡◌}
use todo_rust.App.Http.{Response, get_header, insert_header}
use todo_rust.Text.{Text, codes}

-- `SetResponseHeaderLayer::if_not_present` and `overriding`, and the base64 encoder.
pub record Layers : Type 0 where
  pub if_not_present : Text → Text → Response → Response
  pub encode_url_safe : List ℕ → Text

-- Such a layer sets the header of a response that lacks it, and changes nothing else.
pub record SetsMissing (l : Layers) : Type 0 where
  pub present :
      (name value old : Text) (r : Response)
      → get_header name r.headers ≡ some old
      → l.if_not_present name value r ≡ r
  pub absent :
      (name value : Text) (r : Response)
      → get_header name r.headers ≡ none
      → l.if_not_present name value r ≡ record r { headers = insert_header name value r.headers }

unfoldable pub csp : Text → Text
csp nonce =
    codes "default-src 'self'; script-src 'self' 'unsafe-eval' 'nonce-"
    ++ (nonce
        ++ codes
            "'; style-src 'self' 'unsafe-inline'; font-src 'self'; img-src 'self' data:; connect-src 'self'")

abbrev set_csp : Option Text → Response → Response
set_csp none r = r
set_csp (some value) r = record r {
  headers = insert_header (codes "content-security-policy") value r.headers;
}

module _ (l : Layers) where
  -- `random` is the 16 random bytes; `next` reads the nonce from the request.
  unfoldable pub csp_nonce_middleware :
      {W : Type 0} → (Text → Option Text) → List ℕ → (Text → W → Response × W) → W → Response × W
  csp_nonce_middleware from_str random next w =
      let nonce = l.encode_url_safe random in
      let (answer, w') = next nonce w in (set_csp (from_str (csp nonce)) answer, w')

  -- The first layer that is added is the innermost.
  unfoldable pub apply_security_headers : Bool → Response → Response
  apply_security_headers cookie_secure r =
      let r = l.if_not_present (codes "x-content-type-options") (codes "nosniff") r in
      let r =
        l.if_not_present (codes "referrer-policy") (codes "strict-origin-when-cross-origin") r in
      let r =
        l.if_not_present (codes "permissions-policy")
          (codes "geolocation=(), microphone=(), camera=()") r in
      if cookie_secure
      then l.if_not_present (codes "strict-transport-security")
          (codes "max-age=31536000; includeSubDomains") r
      else r

  -- version.rs
  unfoldable pub apply_version_header : Text → Response → Response
  apply_version_header git_sha r = l.if_not_present (codes "x-app-version") git_sha r

-- request_id.rs: `uuid` is a fresh identifier as text.
unfoldable pub make_request_id : (Text → Option Text) → Text → Option Text
make_request_id from_str uuid = from_str uuid
