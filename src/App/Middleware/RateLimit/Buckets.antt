-- ===== src/App/Middleware/RateLimit/Buckets.antt =====
-- The buckets of the addresses, and their bounds.
use todo_rust.Prelude.{All, [], arith, some, ℕ, ◌∷◌, ◌≡◌, ◌≢◌, ◌≤◌}
use todo_rust.App.Middleware.RateLimit.{
  Bucket, Buckets, IpAddr, RateLimiter, bucket_of, check, lookup_bucket, refilled, store_bucket,
  take_token,
}
use todo_rust.Domain.{Time}

pub lookup_bucket-store_bucket-eq :
    (ip : IpAddr) (b : Bucket) (bs : Buckets) → lookup_bucket ip (store_bucket ip b bs) ≡ some b
unfolding lookup_bucket store_bucket
lookup_bucket-store_bucket-eq ip b [] = ground arith
lookup_bucket-store_bucket-eq ip b ((k, c) ∷ bs) =
    ground (arith, lookup_bucket-store_bucket-eq ip b bs)

pub lookup_bucket-store_bucket-ne :
    (ip another : IpAddr) (b : Bucket) (bs : Buckets)
    → another ≢ ip
    → lookup_bucket another (store_bucket ip b bs) ≡ lookup_bucket another bs
unfolding lookup_bucket store_bucket
lookup_bucket-store_bucket-ne ip another b [] h = ground arith
lookup_bucket-store_bucket-ne ip another b ((k, c) ∷ bs) h =
    ground (arith, lookup_bucket-store_bucket-ne ip another b bs h)

-- A request of one address changes neither the bucket of another nor whether that one passes.
pub check-other :
    (limiter : RateLimiter) (ip another : IpAddr) (now later : Time)
    → another ≢ ip
    → (bucket_of (check limiter ip now).0 another later ≡ bucket_of limiter another later)
      × ((check (check limiter ip now).0 another later).1 ≡ (check limiter another later).1)
unfolding check bucket_of
check-other limiter ip another now later h =
    let same =
      lookup_bucket-store_bucket-ne ip another (take_token limiter (bucket_of limiter ip now) now).0
        limiter.inner h in
    (rw same, unfold take_token refilled in rw same)

-- Every bucket holds at most the burst.
abbrev pub Bounded : RateLimiter → Type 0
Bounded limiter = All (λ (ip, b). b.tokens ≤ limiter.burst) limiter.inner

take_token-bounds :
    (limiter : RateLimiter) (b : Bucket) (now : Time)
    → (take_token limiter b now).0.tokens ≤ limiter.burst
unfolding take_token refilled
take_token-bounds limiter b now = ground arith

store_bucket_keeps :
    (n : ℕ) (ip : IpAddr) (b : Bucket) (bs : Buckets)
    → b.tokens ≤ n
    → All (λ (ip, b). b.tokens ≤ n) bs
    → All (λ (ip, b). b.tokens ≤ n) (store_bucket ip b bs)
unfolding store_bucket
store_bucket_keeps n ip b [] h k = (h, tt)
store_bucket_keeps n ip b ((key, c) ∷ bs) h (p, k) =
    ground (arith, store_bucket_keeps n ip b bs h k)

-- If every bucket holds at most the burst, so it is after a request.
pub check-Bounded :
    (limiter : RateLimiter) (ip : IpAddr) (now : Time)
    → Bounded limiter
    → Bounded (check limiter ip now).0
unfolding check
check-Bounded limiter ip now h =
    store_bucket_keeps limiter.burst ip (take_token limiter (bucket_of limiter ip now) now).0
      limiter.inner (take_token-bounds limiter (bucket_of limiter ip now) now) h
