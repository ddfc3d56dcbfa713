-- ===== src/App/Cache/Reads.antt =====
-- What `get_or_compute` returns, whatever the cache server does.
use todo_rust.Prelude.{
  Option, Option-cases, ap, arith, inl, inr, none, refl, some, true, unwrap_or, ℕ, ◌+◌, ◌<◌, ◌≡◌,
  ◌≤◌,
}
use todo_rust.App.Cache.{Cache, get, get_or_compute, put, read_answer}
use todo_rust.App.World.{Codec, RedisClient, RoundTrips, World}
use todo_rust.Domain.{Time}
use todo_rust.Prelude.Exec.{Exec, Result, err, ok}
use todo_rust.Text.{Text}

read_answer_sound :
    {T : Type 0} (codec : Codec T) (sent : Result Text (Option Text)) (v : T)
    → (read_answer codec sent).0 ≡ some v
    → (raw : Text) × (sent ≡ ok (some raw)) × (codec.decode raw ≡ some v)
unfolding read_answer
read_answer_sound codec (ok (some raw)) v h = (raw, refl, ground arith)
read_answer_sound codec (ok none) v h = cc
read_answer_sound codec (err e) v h = cc

-- A text that is set is there until its time to live is over, and then no more.
pub record ExpiresTexts {R : Type 0} (x : RedisClient R) : Type 0 where
  pub fresh :
      (now later : Time) (key value : Text) (ttl : ℕ) (r : R)
      → (x.set now key value ttl r).0 ≡ ok tt
      → now ≤ later
      → later < now + ttl
      → (x.get later key (x.set now key value ttl r).1).0 ≡ ok (some value)
  pub expired :
      (now later : Time) (key value : Text) (ttl : ℕ) (r : R)
      → (x.set now key value ttl r).0 ≡ ok tt
      → now + ttl ≤ later
      → (x.get later key (x.set now key value ttl r).1).0 ≡ ok none

module _ {R S T : Type 0} (redis : RedisClient R) (codec : Codec T) where
  -- The server answered the read with a text that decodes to the value.
  pub record Cached (now : Time) (key : Text) (w : World R S) (v : T) : Type 0 where
    pub raw : Text
    pub answered : (redis.get now key w.redis).0 ≡ ok (some raw)
    pub decoded : codec.decode raw ≡ some v

  pub get_sound :
      (cache : Cache) (now : Time) (key : Text) (w : World R S) (v : T)
      → (get redis codec cache now key w).0 ≡ some v
      → Cached now key w v
  unfolding get
  get_sound cache now key w v h =
      let (raw, answered, decoded) =
        read_answer_sound codec (redis.get now key w.redis).0 v (ground arith) in
      record { raw = raw; answered = answered; decoded = decoded }

  -- What `get_or_compute` does where the server has nothing for it, and its computation succeeds.
  miss-get_or_compute :
      {E : Type 0} (cache : Cache) (now : Time) (key : Text) (ttl : Option ℕ)
      (compute : Exec E (World R S) T) (value : T) (w : World R S)
      → ((v : T) → ¬ Cached now key w v)
      → (compute (get redis codec cache now key w).1).0 ≡ ok value
      → get_or_compute redis codec cache now key ttl compute w ≡ (
        ok value,
        put redis codec cache now key value ttl (compute (get redis codec cache now key w).1).1,
      )
  unfolding get_or_compute
  miss-get_or_compute cache now key ttl compute value w nothing good =
      elim (Option-cases (get redis codec cache now key w).0) [
        | inl e ↦ ground (arith, e, good)
        | inr (v, e) ↦ absurd (nothing v (get_sound cache now key w v e))
      ]

  hit-get_or_compute :
      {E : Type 0} (cache : Cache) (now : Time) (key : Text) (ttl : Option ℕ)
      (compute : Exec E (World R S) T) (value : T) (w : World R S)
      → (get redis codec cache now key w).0 ≡ some value
      → (get_or_compute redis codec cache now key ttl compute w).0 ≡ ok value
  unfolding get_or_compute
  hit-get_or_compute cache now key ttl compute value w h = ground (arith, h)

  pub get-put :
      (laws : ExpiresTexts redis) (trips : RoundTrips codec) (cache : Cache) (now later : Time)
      (key : Text) (ttl : Option ℕ) (value : T) (raw : Text) (w : World R S)
      → cache.pool ≡ true
      → codec.encode value ≡ some raw
      → (redis.set now key raw (unwrap_or ttl cache.default_ttl) w.redis).0 ≡ ok tt
      → now ≤ later
      → later < now + unwrap_or ttl cache.default_ttl
      → (get redis codec cache later key (put redis codec cache now key value ttl w)).0 ≡ some value
  get-put laws trips cache now later key ttl value raw w on enc acked order soon =
      let there =
        laws.fresh now later key raw (unwrap_or ttl cache.default_ttl) w.redis acked order soon in
      let back = trips.decode-encode value raw enc in
      let stored : (put redis codec cache now key value ttl w).redis
          ≡ (redis.set now key raw (unwrap_or ttl cache.default_ttl) w.redis).1 =
        unfold put in ground (arith, on, enc) in
      unfold get read_answer in ground (arith, on, stored, there, back)

  -- With a cache that is on and a server that keeps a text until its time to live is over: where the
  -- server has no text that decodes, the computation succeeds and the server acknowledges that it
  -- stores the outcome, `get_or_compute` gives the outcome, and until the time to live is over it
  -- gives the same under that key, whatever the computation is then.
  pub get_or_compute-again :
      {E F : Type 0} (laws : ExpiresTexts redis) (trips : RoundTrips codec) (cache : Cache)
      (now later : Time) (key : Text) (ttl next_ttl : Option ℕ) (compute : Exec E (World R S) T)
      (next_compute : Exec F (World R S) T) (value : T) (raw : Text) (w : World R S)
      → cache.pool ≡ true
      → ((v : T) → ¬ Cached now key w v)
      → (compute (get redis codec cache now key w).1).0 ≡ ok value
      → codec.encode value ≡ some raw
      → (redis.set now key raw
          (unwrap_or ttl cache.default_ttl)
          (compute (get redis codec cache now key w).1).1.redis).0
        ≡ ok tt
      → now ≤ later
      → later < now + unwrap_or ttl cache.default_ttl
      → ((get_or_compute redis codec cache now key ttl compute w).0 ≡ ok value)
        × ((get_or_compute redis codec cache later key next_ttl next_compute
              (get_or_compute redis codec cache now key ttl compute w).1).0
            ≡ ok value)
  get_or_compute-again laws trips cache now later key ttl next_ttl compute next_compute value raw w
        on nothing good enc acked order soon =
      let missed = miss-get_or_compute cache now key ttl compute value w nothing good in
      let mid = (compute (get redis codec cache now key w).1).1 in
      (
        ap (λ r. r.0) missed,
        rw missed (
            hit-get_or_compute cache later key next_ttl next_compute value
              (put redis codec cache now key value ttl mid)
              (get-put laws trips cache now later key ttl value raw mid on enc acked order soon)),
      )
