-- ===== src/Jobs/TtlSweep/Scan.antt =====
-- internal/jobs/ttlsweep.go: the loop over the cursor of SCAN, and its end.
use airelay.Base.{
  ℕ, zero, suc, ◌<◌, ◌≡◌, ◌≢◌, ◌⊎◌, inl, inr, refl, ◌∙◌, false, Option, none, some, List, [], ◌∷◌,
  Bytes, ◌==◌, Bool-cases, Option-cases, if◌then◌else◌, arith,
}
use airelay.Time.{Time, format_day, format_month}
use airelay.Jobs.TtlSweep.{is_expired_spend_key, sweep_page}

-- Redis, as the sweep calls it. `scan` is a SCAN with the pattern spend:* and the count 100: the keys
-- of a page and the next cursor, or an error. `del` is a DEL, whose result is not read.
pub record Scanning (W : Type 0) : Type 0 where
  pub scan : ℕ → W → Option (List Bytes × ℕ) × W
  pub del : Bytes → W → W

module _ {W : Type 0} ⦃redis : Scanning W⦄ where
  -- The loop from a cursor; `none` means that the fuel ran out.
  scan_loop : ℕ → Time → ℕ → W → Option W
  scan_loop zero now cursor w = none
  scan_loop (suc fuel) now cursor w =
      let rest : ℕ → W → Option W = scan_loop fuel now in
      elim (redis.scan cursor w).0 [
        | none ↦ some (redis.scan cursor w).1
        | some (keys, next) ↦
            let v = sweep_page redis.del now keys (redis.scan cursor w).1 in
            if next == 0 then some v else rest next v
      ]

  -- RunTTLSweep, less its log lines.
  unfoldable pub run_ttl_sweep : ℕ → Time → W → Option W
  unfolding scan_loop
  run_ttl_sweep fuel now w = scan_loop fuel now 0 w

-- What Redis documents of an iteration: it comes to the cursor 0, within `rounds` of a cursor, and a
-- SCAN changes no key; a DEL changes no key but its own.
pub record ScanLaws {W : Type 0} (redis : Scanning W) : Type 0 where
  pub rounds : ℕ → ℕ
  pub advances :
      (cursor next : ℕ) (keys : List Bytes) (w : W)
      → (redis.scan cursor w).0 ≡ some (keys, next)
      → (next ≡ 0) ⊎ (rounds next < rounds cursor)
  -- the value of a key
  pub value : Bytes → W → Option Bytes
  pub value-scan :
      (key : Bytes) (cursor : ℕ) (w : W) → value key (redis.scan cursor w).1 ≡ value key w
  pub value-del :
      (key other : Bytes) (w : W) → other ≢ key → value key (redis.del other w) ≡ value key w

module _ {W : Type 0} ⦃redis : Scanning W⦄ (laws : ScanLaws redis) (now : Time) where
  value-sweep_page :
      (key : Bytes) (keys : List Bytes) (w : W)
      → is_expired_spend_key key (format_day now) (format_month now) ≡ false
      → laws.value key (sweep_page redis.del now keys w) ≡ laws.value key w
  unfolding sweep_page
  value-sweep_page key [] w h = refl
  value-sweep_page key (k ∷ keys) w h =
      elim (Bool-cases (is_expired_spend_key k (format_day now) (format_month now))) [
        | inl e ↦ rw e (
            value-sweep_page key keys (redis.del k w) h
            ∙ laws.value-del key k w (λ q.
              let f : is_expired_spend_key k (format_day now) (format_month now) ≡ false = rw q h in
              cc))
        | inr e ↦ rw e (value-sweep_page key keys w h)
      ]

  falls :
      (cursor next : ℕ) (keys : List Bytes) (w : W) (fuel : ℕ)
      → (redis.scan cursor w).0 ≡ some (keys, next)
      → (next == 0) ≡ false
      → laws.rounds cursor < suc fuel
      → laws.rounds next < fuel
  falls cursor next keys w fuel e z h = elim (laws.advances cursor next keys w e) [
    | inl n ↦ ground arith
    | inr n ↦ omega arith
  ]

  scan_loop-ends :
      (fuel cursor : ℕ) (w : W)
      → laws.rounds cursor < fuel
      → (w' : W) × (scan_loop fuel now cursor w ≡ some w')
        × ((key : Bytes)
            → is_expired_spend_key key (format_day now) (format_month now) ≡ false
            → laws.value key w' ≡ laws.value key w)
  unfolding scan_loop
  scan_loop-ends (suc fuel) cursor w h = elim (Option-cases (redis.scan cursor w).0) [
    | inl e ↦
        ((redis.scan cursor w).1, rw (scan_loop, e) refl, λ key f. laws.value-scan key cursor w)
    | inr ((keys, next), e) ↦
        let v = sweep_page redis.del now keys (redis.scan cursor w).1 in
        let kept : (key : Bytes)
            → is_expired_spend_key key (format_day now) (format_month now) ≡ false
            → laws.value key v ≡ laws.value key w =
          λ key f.
            value-sweep_page key keys (redis.scan cursor w).1 f ∙ laws.value-scan key cursor w in
        elim (Bool-cases (next == 0)) [
          | inl z ↦ (v, rw (scan_loop, e, z) refl, kept)
          | inr z ↦
              let (w', run, kept') =
                scan_loop-ends fuel next v (falls cursor next keys w fuel e z h) in
              (w', rw (scan_loop, e, z) run, λ key f. kept' key f ∙ kept key f)
        ]
  ]
  scan_loop-ends zero cursor w h = ground arith

  -- With more fuel than the rounds of an iteration the sweep comes to an end, and then every key that
  -- is not an expired spend key, such as those of the day and the month of the sweep, has the value
  -- that it had.
  pub run_ttl_sweep_ends :
      (fuel : ℕ) (w : W)
      → laws.rounds 0 < fuel
      → (w' : W) × (run_ttl_sweep fuel now w ≡ some w')
        × ((key : Bytes)
            → is_expired_spend_key key (format_day now) (format_month now) ≡ false
            → laws.value key w' ≡ laws.value key w)
  unfolding run_ttl_sweep
  run_ttl_sweep_ends fuel w h = scan_loop-ends fuel 0 w h
