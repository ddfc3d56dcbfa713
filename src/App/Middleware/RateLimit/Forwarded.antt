-- ===== src/App/Middleware/RateLimit/Forwarded.antt =====
-- The address that a request is counted under (crates/app/src/middleware/rate_limit.rs).
use todo_rust.Prelude.{
  All, List, Option, Option-cases, [], filter_map, inl, inr, none, refl, some, true, unwrap_or,
  ◌++◌, ◌∷◌, ◌≡◌,
}
use todo_rust.App.Http.{Headers, get_header}
use todo_rust.App.Middleware.RateLimit.{
  IpAddr, RateLimiter, client_ip, client_ip_from_headers, last_of,
}
use todo_rust.Text.{Text, codes, split, trim}

-- None of the entries parses.
abbrev pub NoneParses : (Text → Option IpAddr) → List Text → Type 0
NoneParses parse_ip = All (λ s. parse_ip (trim s) ≡ none)

module _ (to_str : Text → Option Text) (parse_ip : Text → Option IpAddr) where
  abbrev addresses : List Text → List IpAddr
  addresses = filter_map (λ s. parse_ip (trim s))

  addresses-NoneParses : (l : List Text) → NoneParses parse_ip l → addresses l ≡ []
  addresses-NoneParses [] h = refl
  addresses-NoneParses (s ∷ l) (e, h) = rw e (addresses-NoneParses l h)

  last_of-addresses :
      (before behind : List Text) (s : Text) (ip : IpAddr)
      → parse_ip (trim s) ≡ some ip
      → NoneParses parse_ip behind
      → last_of (addresses (before ++ (s ∷ behind))) ≡ some ip
  last_of-addresses [] behind s ip h k = rw (h, addresses-NoneParses behind k) refl
  last_of-addresses (t ∷ before) behind s ip h k =
      let later = last_of-addresses before behind s ip h k in
      elim (Option-cases (parse_ip (trim t))) [
        | inl e ↦ rw e later
        | inr (a, e) ↦ rw (e, later) refl
      ]

  -- Behind a proxy that is trusted a request is counted under the rightmost entry of the header
  -- that parses as an address, whatever the entries behind it are that do not parse; and under the
  -- address of the peer where no entry parses.
  pub client_ip_lem :
      (limiter : RateLimiter) (conn : Option IpAddr) (headers : Headers) (value shown : Text)
      → limiter.trust_forwarded_for ≡ true
      → get_header (codes "x-forwarded-for") headers ≡ some value
      → to_str value ≡ some shown
      → ((before behind : List Text) (s : Text) (ip : IpAddr)
          → split shown b',' ≡ before ++ (s ∷ behind)
          → parse_ip (trim s) ≡ some ip
          → NoneParses parse_ip behind
          → client_ip to_str parse_ip limiter conn headers ≡ ip)
        × (NoneParses parse_ip (split shown b',')
            → client_ip to_str parse_ip limiter conn headers ≡ unwrap_or conn 0)
  unfolding client_ip client_ip_from_headers
  client_ip_lem limiter conn headers value shown on found visible = (
    λ before behind s ip e h k.
        rw (on, found, visible, e, last_of-addresses before behind s ip h k) refl,
    λ k. rw (on, found, visible, addresses-NoneParses (split shown b',') k) refl,
  )
