-- ===== src/Cmd/Seed/Resolves.antt =====
-- The key that the seed prints, at the proxy.
use airelay.Base.{◌≤◌, ◌≡◌, refl, ap, ◌∙◌, false, some, none, Bytes, length}
use airelay.Float.{FloatOps}
use airelay.Uuid.{Uuid, UuidLib}
use airelay.Models.{provider_openai}
use airelay.Config.{Config}
use airelay.Encrypt.{CryptoLib, CryptoLaws, nonce_size}
use airelay.Proxy.Backend.{Backend}
use airelay.Proxy.Auth.{generate_key, resolve_from_db, lookup_of_row, decrypted}
use airelay.Api.Db.{Store}
use airelay.Api.Projects.{is_empty}
use airelay.Api.Lifecycle.{row_for, credential_query}
use airelay.Cmd.Seed.{goes, SeedInputs, seed}
use airelay.Cmd.Seed.Steps.{IsFresh, seed-IsSeeded}

module _ {W : Type 0} ⦃be : Backend W⦄ ⦃fl : FloatOps⦄ ⦃lib : UuidLib⦄ ⦃crypto : CryptoLib⦄ where
  -- Where the statements of the seed run, on whatever tables, also those of an earlier run, the ids of
  -- new rows and the random key are new, an OpenAI key is configured and the encryption key has at
  -- least 16 bytes, the seed ends and prints a project and a key; and the proxy, when Postgres
  -- answers its query from the tables that the seed leaves and it has the same encryption key,
  -- resolves the printed key to that project and to exactly the configured OpenAI key.
  pub seed-resolve_from_db :
      (laws : CryptoLaws crypto) (cfg : Config) (x : SeedInputs) (nonce nonce' : Bytes) (s : Store)
      (w : W)
      → is_empty cfg.openai_key ≡ false
      → 16 ≤ length cfg.credential_encryption_key
      → x.openai_nonce ≡ some nonce
      → length nonce ≡ nonce_size
      → x.anthropic_nonce ≡ some nonce'
      → length nonce' ≡ nonce_size
      → IsFresh x s
      → let (full, prefix, hash) = generate_key x.random in
        let (flow, s') = seed cfg x s in
        (be.db_credential hash provider_openai w).0 ≡ credential_query hash provider_openai s'.db
        → (project : Uuid) × (flow ≡ goes (project, full))
          × ((resolve_from_db cfg.credential_encryption_key hash provider_openai w).0
              ≡ some (record {
                api_key_id = (s.script 3).id;
                project_id = project;
                provider = provider_openai;
                plain_key = cfg.openai_key;
              }))
  unfolding credential_query resolve_from_db lookup_of_row decrypted
  seed-resolve_from_db laws cfg x nonce nonce' s w used long e ln e' ln' is answers =
      let (project, sealed, c, stored, (flow, seeded)) =
        seed-IsSeeded laws cfg x nonce nonce' used long e ln e' ln' s is in
      let s' = (seed cfg x s).1 in
      let row =
        seeded.live s'.db.provider_credentials
        ∙ ap (λ o. row_for (s.script 3).id project o none) seeded.credential
        ∙ stored.row in
      (project, flow, rw (answers ∙ row, stored.opens) refl)
