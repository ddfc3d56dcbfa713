-- ===== src/App/Middleware/RateLimit/Patience.antt =====
-- An address that waits for a token (crates/app/src/middleware/rate_limit.rs).
use todo_rust.Prelude.{All, [], arith, refl, true, ◌*◌, ◌-◌, ◌∙◌, ◌∷◌, ◌≡◌, ◌≢◌, ◌≤◌}
use todo_rust.App.Middleware.RateLimit.{
  Bucket, IpAddr, RateLimiter, check, lookup_bucket, refilled, take_token,
}
use todo_rust.App.Middleware.RateLimit.Window.{
  Requests, bucket_of_found, lookup_bucket-check, lookup_bucket-check-another, taken, taken-last,
}
use todo_rust.Domain.{Time}

-- The limiter after a sequence of requests.
unfoldable pub after : RateLimiter → Requests → RateLimiter
after limiter [] = limiter
after limiter ((who, now) ∷ rest) = after (check limiter who now).0 rest

-- None of the requests is of the address.
abbrev pub OfOthers : IpAddr → Requests → Type 0
OfOthers ip = All (λ (who, now). who ≢ ip)

-- The requests of others leave the settings and the bucket of an address as they are.
lookup_bucket-after :
    (ip : IpAddr) (requests : Requests) (limiter : RateLimiter)
    → OfOthers ip requests
    → (lookup_bucket ip (after limiter requests).inner ≡ lookup_bucket ip limiter.inner)
      × ((after limiter requests).one ≡ limiter.one)
      × ((after limiter requests).rate ≡ limiter.rate)
      × ((after limiter requests).burst ≡ limiter.burst)
unfolding after check
lookup_bucket-after ip [] limiter h = (refl, refl, refl, refl)
lookup_bucket-after ip ((who, now) ∷ rest) limiter (another, h) =
    let (found, one, rate, burst) = lookup_bucket-after ip rest (check limiter who now).0 h in
    let same = lookup_bucket-check-another limiter ip who now (ground arith) in
    (found ∙ same, one, rate, burst)

-- A bucket to which a token came since it was last used.
refilled_enough :
    (limiter : RateLimiter) (b : Bucket) (now : Time)
    → limiter.one ≤ limiter.burst
    → limiter.one ≤ (now - b.last) * limiter.rate
    → limiter.one ≤ refilled limiter b now
unfolding refilled
refilled_enough limiter b now h k = ground arith

take_token_enough :
    (limiter : RateLimiter) (b : Bucket) (now : Time)
    → limiter.one ≤ refilled limiter b now
    → (take_token limiter b now).1 ≡ true
unfolding take_token
take_token_enough limiter b now h = ground arith

-- With a burst of at least one token, a request of an address passes if since the one before,
-- whether that passed or not, the time has brought a token, whichever requests of others came in
-- between.
pub check-after :
    (limiter : RateLimiter) (ip : IpAddr) (now later : Time) (between : Requests)
    → limiter.one ≤ limiter.burst
    → OfOthers ip between
    → limiter.one ≤ (later - now) * limiter.rate
    → (check (after (check limiter ip now).0 between) ip later).1 ≡ true
unfolding check
check-after limiter ip now later between enough apart waited =
    let (found, one, rate, burst) = lookup_bucket-after ip between (check limiter ip now).0 apart in
    let last = after (check limiter ip now).0 between in
    let same =
      bucket_of_found last ip later (taken limiter ip now)
        (found ∙ lookup_bucket-check limiter ip ip now (ground arith)) in
    let filled =
      refilled_enough last (taken limiter ip now) later (rw (one, burst) enough)
        (rw (rate, one, taken-last limiter ip now) waited) in
    rw same (take_token_enough last (taken limiter ip now) later filled)
