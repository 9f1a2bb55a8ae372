-- ===== src/Cmd/Main/Pools.antt =====
-- The pools that are open behind a start.
use airelay.Base.{
  ℕ, suc, ◌+◌, ◌≡◌, refl, ap, Bool, true, false, Option, none, some, Bytes, arith, Bool-cases,
  Option-cases, inl, inr,
}
use airelay.Config.{Env, Config, Loaded, loaded, refused, load}
use airelay.Cmd.Main.{
  Limits, pool_limits, Pooling, GoRedis, Startup, no_config, no_db, no_redis, serves, pinged,
  opened, connect, redis_connects, with_redis, configured, main_proxy, main_api,
}

-- What pgxpool documents, for the number of pools that are open.
pub record PoolingLaws {W Pool : Type 0} (pg : Pooling W Pool) : Type 0 where
  pub open_pools : W → ℕ
  pub opens :
      (url : Bytes) (l : Limits) (w : W) (pool : Pool)
      → (pg.new_with_config url l w).0 ≡ some pool
      → open_pools (pg.new_with_config url l w).1 ≡ suc (open_pools w)
  pub opens_none :
      (url : Bytes) (l : Limits) (w : W)
      → (pg.new_with_config url l w).0 ≡ none
      → open_pools (pg.new_with_config url l w).1 ≡ open_pools w
  pub pings : (pool : Pool) (w : W) → open_pools (pg.ping pool w).1 ≡ open_pools w
  pub closes :
      (pool : Pool) (w : W) (n : ℕ) → open_pools w ≡ suc n → open_pools (pg.close pool w) ≡ n

abbrev pub held : {A : Type 0} → Option A → ℕ
held none = 0
held (some _) = 1

-- The pools that a start has open: a malformed URL of Redis ends the program with the pool open, since
-- log.Fatalf does not run the deferred Close.
abbrev pub holding : {Pool : Type 0} → Startup Pool → ℕ
holding (no_config _) = 0
holding no_db = 0
holding no_redis = 1
holding (serves _ _ _) = 1

holding-with_redis :
    {Pool : Type 0}
    → (port : Bytes) (cfg : Config) (valid : Bool) (pool : Option Pool)
    → holding (with_redis port cfg valid pool) ≡ held pool
unfolding with_redis
holding-with_redis port cfg valid none = refl
holding-with_redis port cfg true (some pool) = refl
holding-with_redis port cfg false (some pool) = refl

module _ {W Pool : Type 0} ⦃pg : Pooling W Pool⦄ (laws : PoolingLaws pg) where
  pinged-open_pools :
      (pool : Pool) (alive : Bool) (n : ℕ) (w : W)
      → laws.open_pools w ≡ suc n
      → let (p, w') = pinged pool (alive, w) in laws.open_pools w' ≡ held p + n
  unfolding pinged
  pinged-open_pools pool true n w h = omega arith
  pinged-open_pools pool false n w h = omega (arith, laws.closes pool w n h)

  opened-open_pools :
      (made : Option Pool) (n : ℕ) (w : W)
      → laws.open_pools w ≡ held made + n
      → let (p, w') = opened (made, w) in laws.open_pools w' ≡ held p + n
  unfolding opened
  opened-open_pools none n w h = h
  opened-open_pools (some pool) n w h =
      pinged-open_pools pool (pg.ping pool w).0 n (pg.ping pool w).1
        (omega (arith, laws.pings pool w))

  made-open_pools :
      (url : Bytes) (w : W)
      → let (made, w₁) = pg.new_with_config url pool_limits w in
        laws.open_pools w₁ ≡ held made + laws.open_pools w
  made-open_pools url w = elim (Option-cases (pg.new_with_config url pool_limits w).0) [
    | inl e ↦ omega (arith, ap held e, laws.opens_none url pool_limits w e)
    | inr (pool, e) ↦ omega (arith, ap held e, laws.opens url pool_limits w pool e)
  ]

  -- A connection leaves a pool open exactly where it gives one: none is left behind an error.
  pub connect-open_pools :
      (url : Bytes) (w : W)
      → let (pool, w') = connect {Pool = Pool} url w in
        laws.open_pools w' ≡ held pool + laws.open_pools w
  unfolding connect
  connect-open_pools url w =
      let (made, w₁) = pg.new_with_config url pool_limits w in
      elim (Bool-cases (pg.parse_config url)) [
        | inr e ↦ rw e (omega arith)
        | inl e ↦ rw e (opened-open_pools made (laws.open_pools w) w₁ (made-open_pools url w))
      ]

module _ {W Pool : Type 0} ⦃pg : Pooling W Pool⦄ ⦃go_redis : GoRedis⦄ (laws : PoolingLaws pg) where
  configured-open_pools :
      (port : Config → Bytes) (l : Loaded) (w : W)
      → let (started, w') = configured {Pool = Pool} port l w in
        laws.open_pools w' ≡ holding started + laws.open_pools w
  unfolding configured
  configured-open_pools port (refused e) w = omega arith
  configured-open_pools port (loaded cfg) w =
      let (pool, w₁) = connect {Pool = Pool} cfg.database_url w in
      omega (
        arith,
        connect-open_pools laws cfg.database_url w,
        holding-with_redis (port cfg) cfg (redis_connects cfg.redis_url) pool,
      )

  -- Each service that comes to listen has one pool open, and a start that ends before that has none,
  -- but where the URL of Redis is malformed.
  pub main-open_pools :
      (env : Env) (now : ℕ) (w : W)
      → let (started, w') = main_proxy {Pool = Pool} env w in
        let ((started_api, runner), w'') = main_api {Pool = Pool} env now w in
        (laws.open_pools w' ≡ holding started + laws.open_pools w)
        × (laws.open_pools w'' ≡ holding started_api + laws.open_pools w)
  unfolding main_proxy main_api
  main-open_pools env now w = (
    configured-open_pools (λ cfg. cfg.proxy_port) (load env) w,
    configured-open_pools (λ cfg. cfg.api_port) (load env) w,
  )
