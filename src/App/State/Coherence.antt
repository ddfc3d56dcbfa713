-- ===== src/App/State/Coherence.antt =====
-- The cached list of todos (crates/app/src/state.rs) and the list of the database.
use todo_rust.Prelude.{
  Bool-cases, List, Option, Option-cases, ap, arith, inl, inr, map, none, select, some, some_inj,
  subst, sym, true, unwrap_or, ℕ, ◌==◌, ◌∙◌, ◌≡◌, ◌⊎◌,
}
use todo_rust.App.Cache.{Cache, get, get_or_compute, invalidate, is_enabled, put}
use todo_rust.App.Cache.Reads.{Cached, get_sound}
use todo_rust.App.State.{AppState, invalidate_todos_cache, list_todos_cached, todos_cache_key}
use todo_rust.App.World.{External, RedisClient, RoundTrips, World, on_db}
use todo_rust.Domain.{Time, Todo, UserId}
use todo_rust.Prelude.Exec.{err, ok}
use todo_rust.Storage.{Database, Tables, broken_link, database, run_sql}
use todo_rust.Storage.TodoRepo.{list_for_user, order_rows, row_to_todo}
use todo_rust.Text.{Text}

-- What a cache server keeps under a key (a text that has run out is there no more), and what its
-- commands may do: it may lose texts at any time, but it gives out only texts that were set.
pub record KeepsTexts {R : Type 0} (x : RedisClient R) : Type 1 where
  pub content : R → Text → Option Text
  pub get_gives :
      (now : Time) (key raw : Text) (r : R)
      → (x.get now key r).0 ≡ ok (some raw)
      → content r key ≡ some raw
  pub get_keeps :
      (now : Time) (key another raw : Text) (r : R)
      → content (x.get now key r).1 another ≡ some raw
      → content r another ≡ some raw
  pub set_keeps :
      (now : Time) (key value : Text) (ttl : ℕ) (another raw : Text) (r : R)
      → content (x.set now key value ttl r).1 another ≡ some raw
      → (content r another ≡ some raw) ⊎ (raw ≡ value)
  pub del_removes :
      (now : Time) (key : Text) (n : ℕ) (r : R)
      → (x.del now key r).0 ≡ ok n
      → content (x.del now key r).1 key ≡ none

-- The todos of a user as the tables have them.
abbrev pub listing : UserId → Tables → List Todo
listing user t = map row_to_todo (order_rows (select (λ r. r.owner_id == user.uuid) t.todos))

pub list_for_user_outcome :
    (user : UserId) (db : Database)
    → (((list_for_user user db).0 ≡ ok (listing user db.tables))
        ⊎ ((list_for_user user db).0 ≡ err (database broken_link)))
      × ((list_for_user user db).1.tables ≡ db.tables)
unfolding list_for_user run_sql
list_for_user_outcome user db = ground arith

pub get-db :
    {R S : Type 0} (x : External R S) (cache : Cache) (now : Time) (key : Text) (w : World R S)
    → (get x.redis x.codec cache now key w).1.db ≡ w.db
unfolding get
get-db x cache now key w = ground arith

module _ {R S : Type 0} (x : External R S) (laws : KeepsTexts x.redis)
    (trips : RoundTrips x.codec) where
  -- Every text that the server has under the user's key is the list of the database.
  unfoldable pub Coherent : UserId → World R S → Type 0
  Coherent user w =
      (raw : Text)
      → laws.content w.redis (todos_cache_key x user) ≡ some raw
      → x.codec.decode raw ≡ some (listing user w.db.tables)

  get-Coherent :
      (cache : Cache) (now : Time) (key : Text) (user : UserId) (w : World R S)
      → Coherent user w
      → Coherent user (get x.redis x.codec cache now key w).1
  unfolding get Coherent
  get-Coherent cache now key user w h = elim (Bool-cases cache.pool) [
    | inr off ↦ rw (get, off) h
    | inl on ↦
        rw (get, on)
          (λ raw k. h raw (laws.get_keeps now key (todos_cache_key x user) raw w.redis k))
  ]

  put-Coherent :
      (cache : Cache) (now : Time) (key : Text) (ttl : Option ℕ) (user : UserId) (w : World R S)
      → Coherent user w
      → Coherent user (put x.redis x.codec cache now key (listing user w.db.tables) ttl w)
  unfolding put todos_cache_key order_rows Coherent
  put-Coherent cache now key ttl user w h = elim (Bool-cases cache.pool) [
    | inr off ↦ rw (put, off) h
    | inl on ↦ elim (Option-cases (x.codec.encode (listing user w.db.tables))) [
      | inl e ↦ rw (put, on, e) h
      | inr (value, e) ↦
          rw (put, on, e)
            (λ raw k.
              elim (laws.set_keeps now key value (unwrap_or ttl cache.default_ttl)
                (todos_cache_key x user) raw w.redis k) [
                  | inl old ↦ h raw old
                  | inr same ↦ rw same (trips.decode-encode (listing user w.db.tables) value e)
                ])
    ]
  ]

  -- A cached answer is the listing.
  Cached-listing :
      (now : Time) (user : UserId) (w : World R S) (v : List Todo)
      → Coherent user w
      → Cached x.redis x.codec now (todos_cache_key x user) w v
      → v ≡ listing user w.db.tables
  unfolding Coherent
  Cached-listing now user w v h c =
      let kept = laws.get_gives now (todos_cache_key x user) c.raw w.redis c.answered in
      some_inj (sym c.decoded ∙ h c.raw kept)

  -- The list of the database behind a read.
  listed-Coherent :
      (user : UserId) (w : World R S)
      → Coherent user w
      → Coherent user (on_db (list_for_user user) w).1
        × ((on_db (list_for_user user) w).1.db.tables ≡ w.db.tables)
  unfolding Coherent
  listed-Coherent user w h =
      let (_, same) = list_for_user_outcome user w.db in ((λ raw k. rw same (h raw k)), same)

  -- The listing behind a miss.
  list_miss :
      (state : AppState) (now : Time) (user : UserId) (w : World R S) (todos : List Todo)
      → state.cache.pool ≡ true
      → (get x.redis x.codec state.cache now (todos_cache_key x user) w).0 ≡ none
      → Coherent user w
      → (list_todos_cached x state now user w).0 ≡ ok todos
      → (todos ≡ listing user w.db.tables) × Coherent user (list_todos_cached x state now user w).1
  list_miss state now user w todos on e h k =
      let key = todos_cache_key x user in
      let mid = (get x.redis x.codec state.cache now key w).1 in
      let there = get-Coherent state.cache now key user w h in
      let (behind, same) = listed-Coherent user mid there in
      let last = (on_db (list_for_user user) mid).1 in
      elim (list_for_user_outcome user mid.db).0 [
        | inr failed ↦ absurd (unfold list_todos_cached is_enabled get_or_compute in ground arith)
        | inl good ↦
            let found : list_todos_cached x state now user w ≡ (
              ok (listing user mid.db.tables),
              put x.redis x.codec state.cache now key (listing user mid.db.tables) (some 60) last,
            ) =
              unfold list_todos_cached is_enabled get_or_compute in ground arith in
            let tables : mid.db.tables ≡ w.db.tables =
              ap (λ d. d.tables) (get-db x state.cache now key w) in
            let stored =
              subst
                (λ t.
                  Coherent user
                    (put x.redis x.codec state.cache now key (listing user t) (some 60) last))
                same (put-Coherent state.cache now key (some 60) user last behind) in
            rw found (ground (arith, found, tables), stored)
      ]

  -- If every text that the cache server has under the user's key is the list of the database, a
  -- list that `list_todos_cached` gives is that list, and the texts stay so.
  pub list_todos_cached-Coherent :
      (state : AppState) (now : Time) (user : UserId) (w : World R S) (todos : List Todo)
      → Coherent user w
      → (list_todos_cached x state now user w).0 ≡ ok todos
      → (todos ≡ listing user w.db.tables) × Coherent user (list_todos_cached x state now user w).1
  list_todos_cached-Coherent state now user w todos h k = elim (Bool-cases state.cache.pool) [
    | inr off ↦
        let plain : list_todos_cached x state now user w ≡ on_db (list_for_user user) w =
          unfold list_todos_cached is_enabled in ground arith in
        let (outcome, _) = list_for_user_outcome user w.db in
        let given = (rw plain at k) in
        rw plain (ground (arith, outcome, given), (listed-Coherent user w h).0)
    | inl on ↦
        elim (Option-cases (get x.redis x.codec state.cache now (todos_cache_key x user) w).0) [
          | inr (v, e) ↦
              let hit' : list_todos_cached x state now user w
                  ≡ (ok v, (get x.redis x.codec state.cache now (todos_cache_key x user) w).1) =
                unfold list_todos_cached is_enabled get_or_compute in ground arith in
              let same =
                Cached-listing now user w v h
                  (get_sound x.redis x.codec state.cache now (todos_cache_key x user) w v e) in
              let given : v ≡ todos = ground (arith, hit') in
              rw hit'
                (sym given ∙ same, get-Coherent state.cache now (todos_cache_key x user) user w h)
          | inl e ↦ list_miss state now user w todos on e h k
        ]
  ]

  -- With a cache that is on, after a deletion that the server acknowledges every text under the
  -- user's key is the list of the database.
  pub invalidate_todos_cache-Coherent :
      (state : AppState) (now : Time) (user : UserId) (w : World R S) (n : ℕ)
      → state.cache.pool ≡ true
      → (x.redis.del now (todos_cache_key x user) w.redis).0 ≡ ok n
      → Coherent user (invalidate_todos_cache x state now user w)
  unfolding Coherent
  invalidate_todos_cache-Coherent state now user w n on h =
      let gone = laws.del_removes now (todos_cache_key x user) n w.redis h in
      unfold invalidate_todos_cache invalidate is_enabled in
      rw (invalidate_todos_cache, on) (λ raw k. absurd (ground (arith, gone)))
