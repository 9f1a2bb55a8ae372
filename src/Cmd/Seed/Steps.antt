-- ===== src/Cmd/Seed/Steps.antt =====
-- The statements of the seed, one behind the other.
use airelay.Base.{
  ℕ, suc, ◌≤◌, ◌≡◌, refl, ◌∙◌, inl, inr, true, false, ◌&&◌, ◌||◌, none, some, List, [], ◌∷◌, ◌++◌,
  Bytes, bytes_eq, bytes_eq_refl, length, ◌==◌, any, find, delete_where, if◌then◌else◌, Bool-cases,
}
use airelay.Float.{FloatOps}
use airelay.Time.{Time}
use airelay.Uuid.{Uuid}
use airelay.Models.{ApiKey, ProviderCredential, provider_openai, provider_anthropic}
use airelay.Config.{Config}
use airelay.Encrypt.{CryptoLib, CryptoLaws, ok, nonce_size, encrypt, decrypt, decrypt-encrypt}
use airelay.Proxy.Auth.{generate_key}
use airelay.Api.Db.{Db, Store}
use airelay.Api.Projects.{is_empty}
use airelay.Api.Keys.{insert_key}
use airelay.Api.Credentials.{is_current, upsert_credential}
use airelay.Api.Lifecycle.{row_for, credential_in}
use airelay.Api.Lifecycle.Created.{credential_in-last}
use airelay.Api.Lifecycle.Stored.{current, upsert_found_lem, find-left, current-row}
use airelay.Cmd.Seed.{
  M, ◌>>=◌, exec, pure, dev_key, dev_email, dev_slug, upsert_user, upsert_project, delete_dev_keys,
  insert_budget, SeedInputs, seed_openai, seed_anthropic, seed,
}
use airelay.Cmd.Seed.Rows.{user_over-HasUser, project_over-HasProject, any-delete_where}
use airelay.Cmd.Seed.Kept.{
  Ends, exec-Ends, bind-Ends, IsSeeded, upsert_found-IsSeeded, insert_budget-IsSeeded,
}

module _ ⦃fl : FloatOps⦄ ⦃crypto : CryptoLib⦄ (cfg : Config) (x : SeedInputs) (project : Uuid)
    (full : Bytes) where
  -- What stands behind the OpenAI credential.
  abbrev rest : M (Uuid × Bytes)
  rest = (if is_empty cfg.anthropic_key then pure tt else seed_anthropic cfg x project) >>= λ _.
      (exec (insert_budget project (fl.literal 10 1)) >>= λ _. pure (project, full))

  rest-Ends :
      (laws : CryptoLaws crypto) (hash nonce : Bytes) (k : Uuid) (c : ProviderCredential)
      (s : Store)
      → 16 ≤ length cfg.credential_encryption_key
      → x.anthropic_nonce ≡ some nonce
      → length nonce ≡ nonce_size
      → IsSeeded hash k project c s.db
      → Ends (project, full) (IsSeeded hash k project c) rest s
  unfolding seed_anthropic upsert_credential
  rest-Ends laws hash nonce k c s long e ln is =
      let I : Db → Type 0 = IsSeeded hash k project c in
      let budget : (t : Store)
          → I t.db
          → Ends (project, full) I
              (exec (insert_budget project (fl.literal 10 1)) >>= λ _. pure (project, full)) t =
        λ t i.
          exec-Ends (project, full) I (insert_budget project (fl.literal 10 1))
            (λ _. pure (project, full)) t i
            (λ id now. insert_budget-IsSeeded hash k project c (fl.literal 10 1) id now t.db i)
            (λ a t' i'. (refl, i')) in
      let (sealed, enc, _) =
        decrypt-encrypt laws nonce cfg.credential_encryption_key cfg.anthropic_key ln long in
      bind-Ends tt (project, full) I
        (if is_empty cfg.anthropic_key then pure tt else seed_anthropic cfg x project) _ s
        (elim (Bool-cases (is_empty cfg.anthropic_key)) [
          | inl f ↦ rw f (refl, is)
          | inr f ↦
              rw (f, e, enc)
                (exec-Ends tt I (upsert_credential project provider_anthropic sealed) (λ _. pure tt)
                  s is (λ id now. upsert_found-IsSeeded hash k project c sealed id now s.db _ is)
                  (λ a t i. (refl, i)))
        ])
        (λ t i. budget t i)

abbrev dev_row : Uuid → Bytes → Bytes → Uuid → Time → ApiKey
dev_row project hash prefix id now = record {
  id = id;
  project_id = project;
  key_hash = hash;
  key_prefix = prefix;
  name = dev_key;
  last_used_at = none;
  revoked_at = none;
  created_at = now;
}

insert_key_lem :
    (project : Uuid) (hash prefix : Bytes) (id : Uuid) (now : Time) (db : Db)
    → any (λ k. k.id == id || bytes_eq k.key_hash hash) db.api_keys ≡ false
    → any (λ p. p.id == project) db.projects ≡ true
    → insert_key project hash prefix dev_key id now db
      ≡ some (
        (id, now),
        record db { api_keys = db.api_keys ++ dev_row project hash prefix id now ∷ [] },
      )
unfolding insert_key
insert_key_lem project hash prefix id now db new there = rw (new, there) refl

dev_row_live :
    (project : Uuid) (hash prefix : Bytes) (id : Uuid) (now : Time) (keys : List ApiKey)
    → any (λ k. k.id == id || bytes_eq k.key_hash hash) keys ≡ false
    → (creds : List ProviderCredential)
    → credential_in hash provider_openai creds (keys ++ dev_row project hash prefix id now ∷ [])
      ≡ row_for id project (find (is_current project provider_openai) creds) none
unfolding credential_in
dev_row_live project hash prefix id now keys new creds =
    credential_in-last hash provider_openai id creds keys (dev_row project hash prefix id now) new
    ∙ rw (bytes_eq_refl hash) refl

-- What the seed needs of its surroundings: its statements run, each new row has a new id, and the
-- random key is new.
pub record IsFresh ⦃crypto : CryptoLib⦄ (x : SeedInputs) (s : Store) : Type 0 where
  pub runs : (n : ℕ) → (s.script n).ok ≡ true
  pub new_user : any (λ u. u.id == (s.script 0).id) s.db.users ≡ false
  pub new_project : any (λ p. p.id == (s.script 1).id) s.db.projects ≡ false
  pub new_key :
      any
        (λ k. k.id == (s.script 3).id || bytes_eq k.key_hash (generate_key x.random).2)
        s.db.api_keys
      ≡ false
  pub new_credential : any (λ c. c.id == (s.script 4).id) s.db.provider_credentials ≡ false

-- The project, the sealed key and the credential's row with what a lookup of the key finds.
pub record IsStored ⦃crypto : CryptoLib⦄ (cfg : Config) (k project : Uuid) (sealed : Bytes)
    (c : ProviderCredential) : Type 0 where
  pub row :
      row_for k project (some c) none
      ≡ some (record {
        api_key_id = k;
        project_id = project;
        provider = provider_openai;
        encrypted_key = sealed;
      })
  pub opens : decrypt cfg.credential_encryption_key sealed ≡ ok cfg.openai_key

module _ ⦃fl : FloatOps⦄ ⦃crypto : CryptoLib⦄ (laws : CryptoLaws crypto) (cfg : Config)
    (x : SeedInputs) (nonce nonce' : Bytes) (used : is_empty cfg.openai_key ≡ false)
    (long : 16 ≤ length cfg.credential_encryption_key) (e : x.openai_nonce ≡ some nonce)
    (ln : length nonce ≡ nonce_size) (e' : x.anthropic_nonce ≡ some nonce')
    (ln' : length nonce' ≡ nonce_size) where
  -- What stands behind the key.
  abbrev from_openai : Uuid → Bytes → M (Uuid × Bytes)
  from_openai project full =
      (if is_empty cfg.openai_key then pure tt else seed_openai cfg x project) >>= λ _.
      rest cfg x project full

  from_openai-Ends :
      (hash full : Bytes) (k project : Uuid) (s : Store)
      → (s.script 0).ok ≡ true
      → any (λ c. c.id == (s.script 0).id) s.db.provider_credentials ≡ false
      → any (λ p. p.id == project) s.db.projects ≡ true
      → ((creds : List ProviderCredential)
          → credential_in hash provider_openai creds s.db.api_keys
            ≡ row_for k project (find (is_current project provider_openai) creds) none)
      → (sealed : Bytes) × (c : ProviderCredential) × IsStored cfg k project sealed c
        × Ends (project, full) (IsSeeded hash k project c) (from_openai project full) s
  unfolding seed_openai upsert_credential
  from_openai-Ends hash full k project s runs new there live =
      let (sealed, enc, dec) =
        decrypt-encrypt laws nonce cfg.credential_encryption_key cfg.openai_key ln long in
      let sealing : encrypt x.openai_nonce cfg.credential_encryption_key cfg.openai_key
          ≡ ok sealed =
        rw e enc in
      let o = s.script 0 in
      let creds = s.db.provider_credentials in
      let found = find (is_current project provider_openai) creds in
      let stored =
        upsert_found_lem project provider_openai sealed o.id o.now s.db found new there in
      let c = current project provider_openai sealed o.id o.now found in
      let seeded = find-left project provider_openai sealed o.id o.now found creds refl in
      (
        sealed,
        c,
        record {
          row = current-row project provider_openai sealed o.id k o.now found creds refl;
          opens = dec;
        },
        rw (used, sealing, runs, stored)
            (rest-Ends cfg x project full laws hash nonce' k c _ long e' ln'
              (record { credential = seeded; live = live })),
      )

  seed_until_key :
      (s : Store) (user project : Uuid) (db₁ db₂ db₄ : Db) (given : Uuid × Time)
      → let (full, prefix, hash) = generate_key x.random in
        ((n : ℕ) → (s.script n).ok ≡ true)
        → upsert_user x.password_hash (s.script 0).id (s.script 0).now s.db ≡ some (user, db₁)
        → upsert_project user (s.script 1).id (s.script 1).now db₁ ≡ some (project, db₂)
        → insert_key project hash prefix dev_key (s.script 3).id (s.script 3).now (record db₂ {
          api_keys =
              delete_where (λ k. k.project_id == project && bytes_eq k.name dev_key) db₂.api_keys;
        })
          ≡ some (given, db₄)
        → seed cfg x s
          ≡ from_openai project full
              (record { db = db₄; script = λ n. s.script (suc (suc (suc (suc n)))) })
  unfolding seed delete_dev_keys
  seed_until_key s user project db₁ db₂ db₄ given runs made₁ made₂ made₄ =
      rw (runs 0, made₁, runs 1, made₂, runs 2, runs 3, made₄) refl

  pub seed-IsSeeded :
      (s : Store)
      → IsFresh x s
      → let (full, prefix, hash) = generate_key x.random in
        (project : Uuid) × (sealed : Bytes) × (c : ProviderCredential) × IsStored cfg
          (s.script 3).id
          project
          sealed
          c
        × Ends (project, full) (IsSeeded hash (s.script 3).id project c) (seed cfg x) s
  unfolding upsert_user upsert_project
  seed-IsSeeded s is =
      let (full, prefix, hash) = generate_key x.random in
      let (user, db₁, made₁, h₁) =
        user_over-HasUser x.password_hash (s.script 0).id (s.script 0).now s.db
          (find (λ u. bytes_eq u.email dev_email) s.db.users) refl is.new_user in
      let (project, db₂, made₂, h₂) =
        project_over-HasProject user (s.script 1).id (s.script 1).now db₁
          (find (λ p. bytes_eq p.slug dev_slug) db₁.projects) refl h₁.there
          (rw h₁.projects is.new_project) in
      let id = (s.script 3).id in
      let now = (s.script 3).now in
      let kept =
        delete_where (λ k. k.project_id == project && bytes_eq k.name dev_key) db₂.api_keys in
      let new_key : any (λ k. k.id == id || bytes_eq k.key_hash hash) kept ≡ false =
        any-delete_where (λ k. k.id == id || bytes_eq k.key_hash hash) _ db₂.api_keys
          (rw (h₂.api_keys ∙ h₁.api_keys) is.new_key) in
      let db₄ : Db = record db₂ { api_keys = kept ++ dev_row project hash prefix id now ∷ [] } in
      let made₄ =
        insert_key_lem project hash prefix id now (record db₂ { api_keys = kept }) new_key
          h₂.there in
      let t : Store = record { db = db₄; script = λ n. s.script (suc (suc (suc (suc n)))) } in
      let (sealed, c, stored, ends) =
        from_openai-Ends hash full id project t (is.runs 4)
          (rw (h₂.provider_credentials ∙ h₁.provider_credentials) is.new_credential) h₂.there
          (dev_row_live project hash prefix id now kept new_key) in
      (
        project,
        sealed,
        c,
        stored,
        rw (seed_until_key s user project db₁ db₂ db₄ (id, now) is.runs made₁ made₂ made₄) ends,
      )
