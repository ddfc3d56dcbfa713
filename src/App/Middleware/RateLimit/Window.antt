-- ===== src/App/Middleware/RateLimit/Window.antt =====
-- How many requests of an address pass in a stretch of time, among the requests of all addresses.
use native.Mathlib.Nat.{add-mul, suc-mul}
use todo_rust.Prelude.{
  ==_iff, Bool, Bool-cases, List, [], ap, arith, false, if◌then◌else◌, inl, inr, refl, some, suc,
  sym, true, ℕ, ◌&&◌, ◌*◌, ◌+◌, ◌-◌, ◌==◌, ◌∙◌, ◌∷◌, ◌≡◌, ◌≤◌,
}
use todo_rust.App.Middleware.RateLimit.{
  Bucket, IpAddr, RateLimiter, bucket_of, check, lookup_bucket, refilled, take_token,
}
use todo_rust.App.Middleware.RateLimit.Buckets.{
  lookup_bucket-store_bucket-eq, lookup_bucket-store_bucket-ne,
}
use todo_rust.Domain.{Time}

abbrev pub Requests : Type 0
Requests = List (IpAddr × Time)

-- The requests of the address that pass.
unfoldable pub admitted : RateLimiter → IpAddr → Requests → ℕ
admitted limiter ip [] = 0
admitted limiter ip ((who, now) ∷ rest) =
    let later = admitted (check limiter who now).0 ip rest in
    if who == ip && (check limiter who now).1 then suc later else later

-- The instants do not go back, and none is behind the end.
abbrev pub InOrder : Time → Requests → Time → Type 0
InOrder start [] stop = start ≤ stop
InOrder start ((who, now) ∷ rest) stop = (start ≤ now) × InOrder now rest stop

InOrder-le :
    (start : Time) (requests : Requests) (stop : Time) → InOrder start requests stop → start ≤ stop
InOrder-le start [] stop h = h
InOrder-le start ((who, now) ∷ rest) stop (h, k) = omega (arith, InOrder-le now rest stop k)

InOrder-earlier :
    (start earlier : Time) (requests : Requests) (stop : Time)
    → earlier ≤ start
    → InOrder start requests stop
    → InOrder earlier requests stop
InOrder-earlier start earlier [] stop h k = omega arith
InOrder-earlier start earlier ((who, now) ∷ rest) stop h (p, k) = (omega arith, k)

-- The tokens that two stretches of time bring.
stretches :
    (rate start now stop : ℕ)
    → start ≤ now
    → now ≤ stop
    → (now - start) * rate + (stop - now) * rate ≡ (stop - start) * rate
stretches rate start now stop h k =
    let whole : (now - start) + (stop - now) ≡ stop - start = omega arith in
    sym (add-mul (now - start) (stop - now) rate) ∙ ap (λ n. n * rate) whole

-- What a request takes.
abbrev cost : RateLimiter → Bool → ℕ
cost limiter passes = if passes then limiter.one else 0

-- What a request takes was in the bucket after the refill.
take_token-cost :
    (limiter : RateLimiter) (b : Bucket) (now : Time)
    → (take_token limiter b now).0.tokens + cost limiter (take_token limiter b now).1
      ≡ refilled limiter b now
unfolding take_token refilled
take_token-cost limiter b now = ground arith

refilled-bounds :
    (limiter : RateLimiter) (b : Bucket) (now : Time)
    → (refilled limiter b now ≤ limiter.burst)
      × (refilled limiter b now ≤ b.tokens + (now - b.last) * limiter.rate)
unfolding refilled
refilled-bounds limiter b now = ground arith

suc-mul-cost :
    (limiter : RateLimiter) (passes : Bool) (n : ℕ)
    → (if passes then suc n else n) * limiter.one ≡ n * limiter.one + cost limiter passes
suc-mul-cost limiter true n = suc-mul n limiter.one
suc-mul-cost limiter false n = omega arith

admitted-same :
    (limiter : RateLimiter) (ip who : IpAddr) (now : Time) (rest : Requests)
    → (who == ip) ≡ true
    → admitted limiter ip ((who, now) ∷ rest) * limiter.one
      ≡ admitted (check limiter who now).0 ip rest * limiter.one
        + cost limiter (take_token limiter (bucket_of limiter who now) now).1
unfolding admitted check
admitted-same limiter ip who now rest h = rw h (
    suc-mul-cost limiter (take_token limiter (bucket_of limiter who now) now).1
      (admitted (check limiter who now).0 ip rest))

admitted-another :
    (limiter : RateLimiter) (ip who : IpAddr) (now : Time) (rest : Requests)
    → (who == ip) ≡ false
    → admitted limiter ip ((who, now) ∷ rest) ≡ admitted (check limiter who now).0 ip rest
unfolding admitted
admitted-another limiter ip who now rest h = rw h

-- The bucket of an address after its request.
abbrev pub taken : RateLimiter → IpAddr → Time → Bucket
taken limiter ip now = (take_token limiter (bucket_of limiter ip now) now).0

pub lookup_bucket-check :
    (limiter : RateLimiter) (ip who : IpAddr) (now : Time)
    → (who == ip) ≡ true
    → lookup_bucket ip (check limiter who now).0.inner ≡ some (taken limiter who now)
unfolding check
lookup_bucket-check limiter ip who now h =
    rw (← (==_iff who ip).0 h)
      (lookup_bucket-store_bucket-eq who (taken limiter who now) limiter.inner)

pub lookup_bucket-check-another :
    (limiter : RateLimiter) (ip who : IpAddr) (now : Time)
    → (who == ip) ≡ false
    → lookup_bucket ip (check limiter who now).0.inner ≡ lookup_bucket ip limiter.inner
unfolding check
lookup_bucket-check-another limiter ip who now h =
    lookup_bucket-store_bucket-ne who ip (taken limiter who now) limiter.inner (ground arith)

check-settings :
    (limiter : RateLimiter) (ip : IpAddr) (now : Time)
    → ((check limiter ip now).0.one ≡ limiter.one)
      × ((check limiter ip now).0.rate ≡ limiter.rate)
      × ((check limiter ip now).0.burst ≡ limiter.burst)
unfolding check
check-settings limiter ip now = (refl, refl, refl)

pub taken-last :
    (limiter : RateLimiter) (ip : IpAddr) (now : Time) → (taken limiter ip now).last ≡ now
unfolding take_token
taken-last limiter ip now = ground arith

pub bucket_of_found :
    (limiter : RateLimiter) (ip : IpAddr) (now : Time) (b : Bucket)
    → lookup_bucket ip limiter.inner ≡ some b
    → bucket_of limiter ip now ≡ b
unfolding bucket_of
bucket_of_found limiter ip now b h = rw h

-- A bound on what passes after a request of the address, from one on what passes behind it.
after_take :
    (limiter : RateLimiter) (ip who : IpAddr) (now stop : Time) (rest : Requests)
    → (who == ip) ≡ true
    → admitted (check limiter who now).0 ip rest * limiter.one
      ≤ (taken limiter who now).tokens + (stop - now) * limiter.rate
    → admitted limiter ip ((who, now) ∷ rest) * limiter.one
      ≤ refilled limiter (bucket_of limiter who now) now + (stop - now) * limiter.rate
after_take limiter ip who now stop rest same h = omega (
  arith,
  h,
  admitted-same limiter ip who now rest same,
  take_token-cost limiter (bucket_of limiter who now) now,
)

-- A bound on what passes, from the bucket as it is.
BoundedBy : IpAddr → Time → Requests → RateLimiter → Bucket → Type 0
BoundedBy ip stop requests limiter b =
    lookup_bucket ip limiter.inner ≡ some b
    → InOrder b.last requests stop
    → admitted limiter ip requests * limiter.one ≤ b.tokens + (stop - b.last) * limiter.rate

module _ (ip : IpAddr) (stop : Time) where
  -- What follows a request of the address, from a bound on what passes behind it.
  behind :
      (limiter : RateLimiter) (who : IpAddr) (now : Time) (rest : Requests)
      → (who == ip) ≡ true
      → InOrder now rest stop
      → BoundedBy ip stop rest (check limiter who now).0 (taken limiter who now)
      → admitted limiter ip ((who, now) ∷ rest) * limiter.one
        ≤ refilled limiter (bucket_of limiter who now) now + (stop - now) * limiter.rate
  unfolding BoundedBy
  behind limiter who now rest same k bound =
      let (one, rate, _) = check-settings limiter who now in
      let last = taken-last limiter who now in
      let later = bound (lookup_bucket-check limiter ip who now same) (rw last k) in
      after_take limiter ip who now stop rest same (rw (one, rate, last) at later)

  -- A bucket that was last used at an instant.
  from_bucket :
      (requests : Requests) (limiter : RateLimiter) (b : Bucket)
      → BoundedBy ip stop requests limiter b
  unfolding BoundedBy
  from_bucket [] limiter b h k = unfold admitted in omega arith
  from_bucket ((who, now) ∷ rest) limiter b h (p, k) = elim (Bool-cases (who == ip)) [
    | inr another ↦
        let (one, rate, _) = check-settings limiter who now in
        let later =
          from_bucket rest (check limiter who now).0 b
            (lookup_bucket-check-another limiter ip who now another ∙ h)
            (InOrder-earlier now b.last rest stop p k) in
        rw (admitted-another limiter ip who now rest another) (rw (one, rate) at later)
    | inl same ↦
        let held = bucket_of_found limiter who now b (rw ((==_iff who ip).0 same) h) in
        omega (
          arith,
          behind limiter who now rest same k
              (from_bucket rest (check limiter who now).0 (taken limiter who now)),
          (refilled-bounds limiter (bucket_of limiter who now) now).1,
          ap (λ c. c.tokens) held,
          ap (λ c. (now - c.last) * limiter.rate) held,
          stretches limiter.rate b.last now stop p (InOrder-le now rest stop k),
        )
  ]

  -- Where the instants of the requests do not go back, the tokens that the requests of an address
  -- take in a stretch of time are at most the burst and what the stretch brings, whatever the
  -- bucket held and whichever other requests come between.
  pub admitted-bounds :
      (requests : Requests) (limiter : RateLimiter) (start : Time)
      → InOrder start requests stop
      → admitted limiter ip requests * limiter.one ≤ limiter.burst + (stop - start) * limiter.rate
  admitted-bounds [] limiter start h = unfold admitted in omega arith
  admitted-bounds ((who, now) ∷ rest) limiter start (p, k) = elim (Bool-cases (who == ip)) [
    | inr another ↦
        let (one, rate, burst) = check-settings limiter who now in
        let later =
          admitted-bounds rest (check limiter who now).0 start
            (InOrder-earlier now start rest stop p k) in
        rw (admitted-another limiter ip who now rest another) (rw (one, rate, burst) at later)
    | inl same ↦ omega (
      arith,
      behind limiter who now rest same k
          (from_bucket rest (check limiter who now).0 (taken limiter who now)),
      (refilled-bounds limiter (bucket_of limiter who now) now).0,
      stretches limiter.rate start now stop p (InOrder-le now rest stop k),
    )
  ]
