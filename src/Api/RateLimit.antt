-- ===== src/Api/RateLimit.antt =====
-- api/middleware.go, IPRateLimit: a limiter for each client's address, and a sweep that forgets the
-- addresses that were not seen for a while. The limiter is that of x/time/rate, a parameter. The
-- lock makes each lookup one step; the two readings of the clock in a request are taken for one.
pub mod Refines
use airelay.Base.{
  ℕ, ◌+◌, ◌-◌, ◌*◌, Bool, true, false, Option, none, some, List, [], ◌∷◌, Bytes, bytes_eq, ltb,
  if◌then◌else◌,
}
use airelay.Time.{minute}

-- rate.NewLimiter(r, burst), and its Allow at an instant.
pub record Limiting (L : Type 0) : Type 0 where
  pub fresh : L
  pub allow : ℕ → L → Bool × L

pub record Entry (L : Type 0) : Type 0 where
  pub limiter : L
  pub last_seen : ℕ

abbrev pub Visitors : Type 0 → Type 0
Visitors L = Bytes → Option (Entry L)

pub data Event : Type 0 where
  -- a request from an address, at an instant
  requests : Bytes → ℕ → Event
  -- a tick of the sweep
  sweeps : ℕ → Event

-- net.SplitHostPort(req.RemoteAddr), or the whole address.
unfoldable pub address : (Bytes → Option Bytes) → Bytes → Bytes
address split_host_port remote = elim (split_host_port remote) [ none ↦ remote | some ip ↦ ip ]

abbrev pub put {ℓ} : {A : Type ℓ} → Bytes → A → (Bytes → A) → Bytes → A
put ip e v k = if bytes_eq k ip then e else v k

module _ {L : Type 0} ⦃lim : Limiting L⦄ where
  unfoldable pub limiter_in : Option (Entry L) → L
  limiter_in none = lim.fresh
  limiter_in (some e) = e.limiter

  -- limiterFor(ip).Allow()
  unfoldable pub visit : Bytes → ℕ → Visitors L → Bool × Visitors L
  unfolding limiter_in
  visit ip now v =
      let (allowed, l) = lim.allow now (limiter_in (v ip)) in
      (allowed, put ip (some (record { limiter = l; last_seen = now })) v)

  unfoldable pub evict : ℕ → Option (Entry L) → Option (Entry L)
  evict cutoff none = none
  evict cutoff (some e) = if ltb e.last_seen cutoff then none else some e

  -- The body of the sweep's loop.
  unfoldable pub sweep : ℕ → ℕ → Visitors L → Visitors L
  unfolding evict
  sweep interval now v ip = evict (now - 2 * interval) (v ip)

  -- The decisions on the requests of a trace.
  unfoldable pub decisions : ℕ → List Event → Visitors L → List Bool
  decisions interval [] v = []
  decisions interval (requests ip now ∷ rest) v =
      let (allowed, v') = visit ip now v in allowed ∷ decisions interval rest v'
  decisions interval (sweeps now ∷ rest) v = decisions interval rest (sweep interval now v)
