-- ===== src/App/Cache.antt =====
-- crates/app/src/cache.rs: a cache that is read through and never fails. `pool` tells whether there
-- is a connection pool. A value is decoded and encoded by the codec of its type.
pub mod Reads
use todo_rust.Prelude.{
  Bool, List, Option, [], false, if◌then◌else◌, none, some, unwrap_or, ℕ, ◌++◌, ◌∷◌,
}
use todo_rust.App.World.{Codec, RedisClient, World}
use todo_rust.Domain.{Time}
use todo_rust.Metrics.{
  CacheResult, Metric, cache_operations_total, decode_error, hit, miss, op_del, op_error, op_get,
  op_ok, op_set,
}
use todo_rust.Prelude.Exec.{Exec, Result, err, ok, ◌>>=◌}
use todo_rust.Text.{Text}

pub record Cache : Type 0 where
  pub pool : Bool
  pub default_ttl : ℕ

unfoldable pub new : Bool → ℕ → Cache
new pool default_ttl = record { pool = pool; default_ttl = default_ttl }

unfoldable pub disabled : Cache
disabled = record { pool = false; default_ttl = 60 }

unfoldable pub is_enabled : Cache → Bool
is_enabled cache = cache.pool

-- The `match` on what the server answered.
unfoldable pub read_answer :
    {T : Type 0} → Codec T → Result Text (Option Text) → Option T × List Metric
read_answer codec (ok (some raw)) = elim (codec.decode raw) [
  | some v ↦ (some v, cache_operations_total op_get hit ∷ [])
  | none ↦ (none, cache_operations_total op_get decode_error ∷ [])
]
read_answer codec (ok none) = (none, cache_operations_total op_get miss ∷ [])
read_answer codec (err e) = (none, cache_operations_total op_get op_error ∷ [])

-- The label of a command that answered or failed.
abbrev pub command_result : {A : Type 0} → Result Text A → CacheResult
command_result (ok a) = op_ok
command_result (err e) = op_error

module _ {R S T : Type 0} (redis : RedisClient R) (codec : Codec T) where
  unfoldable pub get : Cache → Time → Text → World R S → Option T × World R S
  unfolding read_answer
  get cache now key w =
      if cache.pool
      then (let (answer, redis') = redis.get now key w.redis in
          let (value, counted) = read_answer codec answer in
          (value, record w { redis = redis'; metrics = w.metrics ++ counted }))
      else (none, w)

  -- A value that does not encode is not stored.
  unfoldable pub put : Cache → Time → Text → T → Option ℕ → World R S → World R S
  put cache now key value ttl w =
      if cache.pool
      then elim (codec.encode value) [
        | none ↦ w
        | some raw ↦
            let (answer, redis') =
              redis.set now key raw (unwrap_or ttl cache.default_ttl) w.redis in
            record w {
              redis = redis';
              metrics = w.metrics ++ cache_operations_total op_set (command_result answer) ∷ [];
            }
      ]
      else w

  -- What `get_or_compute` does behind a miss.
  abbrev store_computed : {E : Type 0} → Cache → Time → Text → Option ℕ → T → Exec E (World R S) T
  store_computed cache now key ttl value w = (ok value, put cache now key value ttl w)

  unfoldable pub get_or_compute :
      {E : Type 0} → Cache → Time → Text → Option ℕ → Exec E (World R S) T → Exec E (World R S) T
  unfolding get put
  get_or_compute cache now key ttl compute w =
      let (cached, w') = get cache now key w in
      elim cached [ some v ↦ (ok v, w') | none ↦ (compute >>= store_computed cache now key ttl) w' ]

module _ {R S : Type 0} (redis : RedisClient R) where
  unfoldable pub invalidate : Cache → Time → Text → World R S → World R S
  invalidate cache now key w =
      if cache.pool
      then (let (answer, redis') = redis.del now key w.redis in
          record w {
            redis = redis';
            metrics = w.metrics ++ cache_operations_total op_del (command_result answer) ∷ [];
          })
      else w
