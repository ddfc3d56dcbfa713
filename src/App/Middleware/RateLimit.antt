-- ===== src/App/Middleware/RateLimit.antt =====
-- crates/app/src/middleware/rate_limit.rs: the token buckets. The floating-point tokens are counted
-- in equal parts, `one` of which make a token, and time in ticks: with one nanosecond to a tick and
-- 12 * 10^9 parts to a token, the rate of the program, 5 / 60 tokens per second, is one part per
-- tick. Rounding of f64 is left out.
pub mod Buckets
pub mod Window
pub mod Patience
pub mod Forwarded
use Prim.Native.Nat.{min}
use todo_rust.Prelude.{
  Bool, List, Option, [], and_then, false, filter_map, if◌then◌else◌, leb, none, not, or_else, some,
  true, unwrap_or, ℕ, ◌*◌, ◌+◌, ◌-◌, ◌==◌, ◌∷◌,
}
use todo_rust.App.Http.{Headers, Response, get_header}
use todo_rust.App.World.{World, record_metrics}
use todo_rust.Domain.{Time}
use todo_rust.Metrics.{auth_rate_limited_total}
use todo_rust.Text.{Text, codes, split, trim}

-- An address is a number; the parser of addresses is a parameter of what uses it.
abbrev pub IpAddr : Type 0
IpAddr = ℕ

pub record Bucket : Type 0 where
  pub tokens : ℕ
  pub last : Time

abbrev pub Buckets : Type 0
Buckets = List (IpAddr × Bucket)

pub record RateLimiter : Type 0 where
  pub inner : Buckets
  pub one : ℕ
  pub rate : ℕ
  pub burst : ℕ
  pub trust_forwarded_for : Bool
  pub enabled : Bool

unfoldable pub new : ℕ → ℕ → ℕ → RateLimiter
new one rate burst = record {
  inner = [];
  one = one;
  rate = rate;
  burst = burst;
  trust_forwarded_for = false;
  enabled = true;
}

unfoldable pub with_trust_forwarded_for : Bool → RateLimiter → RateLimiter
with_trust_forwarded_for trust limiter = record limiter { trust_forwarded_for = trust }

unfoldable pub with_enabled : Bool → RateLimiter → RateLimiter
with_enabled on limiter = record limiter { enabled = on }

unfoldable pub lookup_bucket : IpAddr → Buckets → Option Bucket
lookup_bucket ip [] = none
lookup_bucket ip ((k, b) ∷ bs) = let rest = lookup_bucket ip bs in if k == ip then some b else rest

unfoldable pub store_bucket : IpAddr → Bucket → Buckets → Buckets
store_bucket ip b [] = (ip, b) ∷ []
store_bucket ip b ((k, c) ∷ bs) =
    let rest = store_bucket ip b bs in if k == ip then (k, b) ∷ bs else (k, c) ∷ rest

module _ (limiter : RateLimiter) where
  -- `entry(ip).or_insert_with(…)`
  unfoldable pub bucket_of : IpAddr → Time → Bucket
  bucket_of ip now =
      unwrap_or (lookup_bucket ip limiter.inner) (record { tokens = limiter.burst; last = now })

  -- The tokens after the refill; `duration_since` stops at 0, as subtraction does.
  unfoldable pub refilled : Bucket → Time → ℕ
  refilled b now = min (b.tokens + (now - b.last) * limiter.rate) limiter.burst

  -- The bucket after a request, and whether the request passes.
  unfoldable pub take_token : Bucket → Time → Bucket × Bool
  unfolding refilled
  take_token b now =
      let tokens = refilled b now in
      if leb limiter.one tokens
      then (record { tokens = tokens - limiter.one; last = now }, true)
      else (record { tokens = tokens; last = now }, false)

  unfoldable pub check : IpAddr → Time → RateLimiter × Bool
  unfolding take_token
  check ip now =
      let (b, passes) = take_token (bucket_of ip now) now in
      (record limiter { inner = store_bucket ip b limiter.inner }, passes)

-- The last of a list.
abbrev pub last_of : {A : Type 0} → List A → Option A
last_of [] = none
last_of (a ∷ l) = or_else (last_of l) (some a)

-- The rightmost entry of `X-Forwarded-For` that parses.
unfoldable pub client_ip_from_headers :
    (Text → Option Text) → (Text → Option IpAddr) → Headers → Option IpAddr
client_ip_from_headers to_str parse_ip headers =
    and_then (and_then (get_header (codes "x-forwarded-for") headers) to_str)
      (λ xff. last_of (filter_map (λ s. parse_ip (trim s)) (split xff b',')))

unfoldable pub too_many_requests : Response
too_many_requests = record {
  status = 429;
  headers = (codes "content-type", codes "text/plain; charset=utf-8") ∷ [];
  body = codes "too many requests";
}

module _ (to_str : Text → Option Text) (parse_ip : Text → Option IpAddr) where
  -- The address that a request is counted under; 0 is the unspecified one.
  unfoldable pub client_ip : RateLimiter → Option IpAddr → Headers → IpAddr
  client_ip limiter conn headers =
      let peer_ip = unwrap_or conn 0 in
      if limiter.trust_forwarded_for
      then unwrap_or (client_ip_from_headers to_str parse_ip headers) peer_ip
      else peer_ip

  -- The answer, the limiter and the world after a request; `next` is the rest of the service.
  unfoldable pub rate_limit_middleware :
      {R S : Type 0}
      → Time
      → Option IpAddr
      → Headers
      → (World R S → Response × World R S)
      → RateLimiter
      → World R S
      → Response × RateLimiter × World R S
  rate_limit_middleware now conn headers next limiter w =
      if not limiter.enabled
      then (let (answer, w') = next w in (answer, limiter, w'))
      else let (limiter', passes) = check limiter (client_ip limiter conn headers) now in
        if passes
        then (let (answer, w') = next w in (answer, limiter', w'))
        else (too_many_requests, limiter', record_metrics (auth_rate_limited_total ∷ []) w)
