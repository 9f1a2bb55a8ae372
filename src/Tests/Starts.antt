-- ===== src/Tests/Starts.antt =====
-- The starts of the services at concrete inputs, in a world that counts the open pools.
use airelay.Base.{
  ℕ, suc, ◌-◌, ◌≡◌, refl, Bool, true, false, none, some, codes, bytes_eq, arith, if◌then◌else◌,
}
use airelay.Config.{Env, load, get_env_or_default}
use airelay.Cmd.Main.{
  Pooling, GoRedis, no_db, no_redis, connect, redis_connects, main_proxy, main_api,
}
use airelay.Cmd.Main.Pools.{PoolingLaws}
use airelay.Tests.{letters}

-- A database that answers the ping or not, and URLs of Redis that are all malformed.
abbrev pooling : Bool → Pooling ℕ ℕ
pooling answers = record {
  parse_config = λ url. true;
  new_with_config = λ url l n. (some 7, suc n);
  ping = λ pool n. (answers, n);
  close = λ pool n. n - 1;
}

instance abbrev no_urls : GoRedis
no_urls = record { parse_url = λ url. false }

pooling-Laws : (answers : Bool) → PoolingLaws (pooling answers)
pooling-Laws answers = record {
  open_pools = λ n. n;
  opens = λ url l w pool e. refl;
  opens_none = λ url l w e. ground arith;
  pings = λ pool w. refl;
  closes = λ pool w n e. omega arith;
}

abbrev env : Env
env k = if bytes_eq k (codes "PROXY_PORT") then codes "9000" else letters 32

silent_database : (connect ⦃pg = pooling false⦄ (letters 32) 0) ≡ (none, 0)
unfolding connect
silent_database = refl

no_redis_url : main_proxy ⦃pg = pooling true⦄ env 0 ≡ (no_redis, 1)
unfolding main_proxy connect load get_env_or_default redis_connects
no_redis_url = refl

no_jobs : (main_api ⦃pg = pooling false⦄ env 5 0) ≡ ((no_db, none), 0)
unfolding main_api connect load get_env_or_default redis_connects
no_jobs = refl
