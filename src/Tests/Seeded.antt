-- ===== src/Tests/Seeded.antt =====
-- The theorem on the seed, at a concrete input.
use airelay.Base.{◌≡◌, refl, some, [], Bytes, codes, arith}
use airelay.Uuid.{Uuid}
use airelay.Models.{provider_openai}
use airelay.Config.{Config}
use airelay.Encoding.Hex.{hex_encode}
use airelay.Proxy.Backend.{Backend}
use airelay.Proxy.Auth.{generate_key, hash_key, resolve_from_db}
use airelay.Api.Db.{Store}
use airelay.Api.Lifecycle.{credential_query}
use airelay.Cmd.Seed.{Ended, goes, SeedInputs, seed}
use airelay.Cmd.Seed.Steps.{IsFresh}
use airelay.Cmd.Seed.Resolves.{seed-resolve_from_db}
use airelay.Tests.{
  World, quiet, letters, toy_backend, toy_uuid, toy_float, toy_crypto, toy_crypto-CryptoLaws,
}
use airelay.Tests.Api.{toy_store}

abbrev dev_config : Config
dev_config = record {
  database_url = codes "postgres://";
  redis_url = codes "redis://";
  proxy_port = codes "8081";
  api_port = codes "8080";
  jwt_secret = letters 32;
  credential_encryption_key = letters 32;
  openai_key = codes "sk-1";
  anthropic_key = codes "sk-2";
  google_key = [];
  stripe_secret_key = [];
  stripe_webhook_secret = [];
  resend_api_key = [];
  post_hog_key = [];
}

abbrev dice : SeedInputs
dice = record {
  password_hash = codes "hashed";
  random = letters 24;
  openai_nonce = some (letters 12);
  anthropic_nonce = some (letters 12);
}

dice-IsFresh : IsFresh dice toy_store
unfolding generate_key hash_key hex_encode
dice-IsFresh = record {
  runs = λ n. refl;
  new_user = refl;
  new_project = refl;
  new_key = refl;
  new_credential = refl;
}

seeded : Ended (Uuid × Bytes) × Store
seeded = seed dev_config dice toy_store

-- The proxy's Postgres has the tables behind that.
abbrev behind : Backend World
unfolding seeded
behind = record toy_backend {
  db_credential = λ hash provider w. (credential_query hash provider seeded.1.db, w);
}

seed-resolve_from_db_example :
    let (full, prefix, hash) = generate_key dice.random in
    (project : Uuid) × (seeded.0 ≡ goes (project, full))
    × ((resolve_from_db ⦃be = behind⦄ (letters 32) hash provider_openai quiet).0
        ≡ some (record {
          api_key_id = 23;
          project_id = project;
          provider = provider_openai;
          plain_key = codes "sk-1";
        }))
unfolding seeded
seed-resolve_from_db_example =
    seed-resolve_from_db ⦃be = behind⦄ toy_crypto-CryptoLaws dev_config dice (letters 12)
      (letters 12) toy_store quiet refl (ground arith) refl refl refl refl dice-IsFresh refl
