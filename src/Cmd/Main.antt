-- ===== src/Cmd/Main.antt =====
-- cmd/api/main.go and cmd/proxy/main.go with internal/db/db.go and internal/redis/redis.go: how the
-- two services start. pgx, go-redis and godotenv are not of this repository: the environment is the
-- one behind godotenv.Load, and the pools are parameters. log.Fatalf ends the program and runs no
-- deferred call. The end of ListenAndServe, which the model does not reach, would be the end of it.
pub mod Pools
use airelay.Base.{ℕ, ◌*◌, Bool, true, false, Option, none, some, ◌∷◌, Bytes, if◌then◌else◌}
use airelay.Config.{Env, Config, ConfigError, Loaded, loaded, refused, load}
use airelay.Jobs.Runner.{Runner, start}

-- The fields that `Connect` sets, the times in seconds.
pub record Limits : Type 0 where
  pub max_conns : ℕ
  pub min_conns : ℕ
  pub max_conn_lifetime : ℕ
  pub max_conn_idle_time : ℕ

abbrev pub pool_limits : Limits
pool_limits = record {
  max_conns = 20;
  min_conns = 2;
  max_conn_lifetime = 30 * 60;
  max_conn_idle_time = 5 * 60;
}

-- The calls of pgxpool, and redis.ParseURL, each parser by whether it takes the URL.
pub record Pooling (W Pool : Type 0) : Type 0 where
  pub parse_config : Bytes → Bool
  pub new_with_config : Bytes → Limits → W → Option Pool × W
  pub ping : Pool → W → Bool × W
  pub close : Pool → W → W

pub record GoRedis : Type 0 where
  pub parse_url : Bytes → Bool

-- What becomes of a start; `serves` is the call of ListenAndServe with its address, behind which the
-- server has the configuration and the pool.
pub data Startup (Pool : Type 0) : Type 0 where
  no_config : ConfigError → Startup Pool
  no_db no_redis : Startup Pool
  serves : Bytes → Config → Pool → Startup Pool

with_redis : {Pool : Type 0} → Bytes → Config → Bool → Option Pool → Startup Pool
with_redis port cfg valid none = no_db
with_redis port cfg true (some pool) = serves (b':' ∷ port) cfg pool
with_redis port cfg false (some pool) = no_redis

with_jobs : {Pool : Type 0} → ℕ → Startup Pool → Option Runner
with_jobs now (serves addr cfg pool) = some (start now)
with_jobs now (no_config _) = none
with_jobs now no_db = none
with_jobs now no_redis = none

module _ ⦃go_redis : GoRedis⦄ where
  -- redis.Connect(redisURL): NewClient makes no connection, so each URL that is parsed gives a client.
  unfoldable pub redis_connects : Bytes → Bool
  redis_connects redis_url = go_redis.parse_url redis_url

module _ {W Pool : Type 0} ⦃pg : Pooling W Pool⦄ where
  pinged : Pool → Bool × W → Option Pool × W
  pinged pool (true, w) = (some pool, w)
  pinged pool (false, w) = (none, pg.close pool w)

  opened : Option Pool × W → Option Pool × W
  unfolding pinged
  opened (none, w) = (none, w)
  opened (some pool, w) = pinged pool (pg.ping pool w)

  -- db.Connect(ctx, databaseURL); `none` is its error.
  unfoldable pub connect : Bytes → W → Option Pool × W
  unfolding opened
  connect database_url w =
      if pg.parse_config database_url
      then opened (pg.new_with_config database_url pool_limits w)
      else (none, w)

module _ {W Pool : Type 0} ⦃pg : Pooling W Pool⦄ ⦃go_redis : GoRedis⦄ where
  configured : (Config → Bytes) → Loaded → W → Startup Pool × W
  unfolding with_redis
  configured port (refused e) w = (no_config e, w)
  configured port (loaded cfg) w =
      let (pool, w₁) = connect cfg.database_url w in
      (with_redis (port cfg) cfg (redis_connects cfg.redis_url) pool, w₁)

  -- main of cmd/proxy
  unfoldable pub main_proxy : Env → W → Startup Pool × W
  unfolding configured
  main_proxy env w = configured (λ cfg. cfg.proxy_port) (load env) w

  -- main of cmd/api: `now` is the monotonic clock at the call of jobs.Start. Nothing behind that call
  -- fails before ListenAndServe.
  unfoldable pub main_api : Env → ℕ → W → (Startup Pool × Option Runner) × W
  unfolding configured with_jobs
  main_api env now w =
      let (started, w₁) = configured (λ cfg. cfg.api_port) (load env) w in
      ((started, with_jobs now started), w₁)
