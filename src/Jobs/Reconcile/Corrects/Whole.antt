-- ===== src/Jobs/Reconcile/Corrects/Whole.antt =====
-- A whole run of the reconciliation, over all projects and both periods.
use airelay.Base.{
  ℕ, ◌^◌, ◌<◌, ◌≡◌, refl, ◌∙◌, inl, inr, false, Option, some, List, [], ◌∷◌, Bytes, bytes_eq,
  bytes_eq_iff, bytes_eq_refl, ◌==◌, All, Bool-cases, arith,
}
use airelay.Float.{FloatOps}
use airelay.Time.{Time, IsTime, date}
use airelay.Uuid.{Uuid, UuidLib}
use airelay.Budget.{spend_key, daily, monthly}
use airelay.Budget.Keys.{Window, by_day, by_month, window_name, spend_key-injective}
use airelay.Proxy.Backend.{Backend}
use airelay.Proxy.Budgets.Quiet.{SameDay, IsSame, IsQuiet}
use airelay.Proxy.Budgets.Quiet.Decides.{IsSame-trans}
use airelay.Jobs.Reconcile.{reconcile_period, reconcile_projects, run_reconcile}
use airelay.Jobs.Reconcile.Corrects.{
  corrected, first_instant, Distinct, counter, sum_for, reconcile_period-IsCorrected,
}

first_instant_same :
    (v : Window) (now t : Time) → SameDay now t → first_instant v now ≡ first_instant v t
first_instant_same by_day now t (y, m, d) = rw (y, m, d) refl
first_instant_same by_month now t (y, m, d) = rw (y, m) refl

module _ ⦃lib : UuidLib⦄ (t : Time) where
  abbrev pub key_of : Uuid → Window → Bytes
  key_of p v = spend_key p (window_name v) t

  keys_apart :
      (p q : Uuid) (v u : Window)
      → IsTime t
      → p < 2 ^ 128
      → q < 2 ^ 128
      → ((p ≡ q) → (v ≡ u) → ⊥)
      → bytes_eq (key_of p v) (key_of q u) ≡ false
  keys_apart p q v u time hp hq h = elim (Bool-cases (bytes_eq (key_of p v) (key_of q u))) [
    | inl e ↦
        let (a, b, _) =
          (spend_key-injective p q v u t t hp hq time time).0
            ((bytes_eq_iff (key_of p v) (key_of q u)).0 e) in
        absurd (h a b)
    | inr e ↦ e
  ]

module _ {W : Type 0} ⦃be : Backend W⦄ ⦃fl : FloatOps⦄ ⦃lib : UuidLib⦄ (t : Time) where
  -- The counter of a project is corrected by the sum of its period.
  abbrev pub HasCorrected : Window → W → W → Uuid → Type 0
  HasCorrected v w w' p =
      counter (key_of t p v) w'
      ≡ corrected (sum_for p (first_instant v t) w) (counter (key_of t p v) w)

  -- From `w` to `w'` the counters of the projects are corrected by the sums of `w`, and no other
  -- counter changes.
  pub record IsReconciled (ps : List Uuid) (w w' : W) : Type 0 where
    pub by_days : All (HasCorrected by_day w w') ps
    pub by_months : All (HasCorrected by_month w w') ps
    pub others :
        (k : Bytes)
        → All (λ p. (v : Window) → bytes_eq k (key_of t p v) ≡ false) ps
        → counter k w' ≡ counter k w
    pub sums : (p : Uuid) (a : ℕ) → (be.db_spend_since p a w').0 ≡ (be.db_spend_since p a w).0

  module _ (quiet : IsQuiet be t) (time : IsTime t) where
    one-IsReconciled :
        (p : Uuid) (now : Time) (w : W)
        → SameDay now t
        → p < 2 ^ 128
        → IsReconciled (p ∷ []) w (
            reconcile_period p monthly
              (date now.year now.month 1)
              now
              (reconcile_period p daily (date now.year now.month now.day) now w))
    one-IsReconciled p now w day bound =
        let a = date now.year now.month now.day in
        let b = date now.year now.month 1 in
        let w₁ = reconcile_period p daily a now w in
        let days = reconcile_period-IsCorrected t quiet p daily a now w day in
        let months = reconcile_period-IsCorrected t quiet p monthly b now w₁ day in
        let apart = keys_apart t p p by_day by_month time bound bound (λ a b. cc) in
        let apart' = keys_apart t p p by_month by_day time bound bound (λ a b. cc) in
        let kept = rw apart' at (days.counters (key_of t p by_month)) in
        let at_day = days.counters (key_of t p by_day) in
        let at_month = months.counters (key_of t p by_month) in
        record {
          by_days = (
            rw (← first_instant_same by_day now t day) (
                rw apart at (months.counters (key_of t p by_day))
                ∙ rw (bytes_eq_refl (key_of t p by_day)) at at_day),
            tt,
          );
          by_months = (
            rw (← first_instant_same by_month now t day) (
                rw (bytes_eq_refl (key_of t p by_month)) at at_month
                ∙ rw (days.sums p b, kept) refl),
            tt,
          );
          others = λ k h.
              rw (h.0 by_month) at (months.counters k) ∙ rw (h.0 by_day) at (days.counters k);
          sums = λ q a. months.sums q a ∙ days.sums q a;
        }

    -- What a later run corrects, when the first left the sums and these counters alone.
    corrected_later :
        (v : Window) (w w₁ w' : W) (p : Uuid)
        → ((q : Uuid) (a : ℕ) → (be.db_spend_since q a w₁).0 ≡ (be.db_spend_since q a w).0)
        → counter (key_of t p v) w₁ ≡ counter (key_of t p v) w
        → HasCorrected v w₁ w' p
        → HasCorrected v w w' p
    corrected_later v w w₁ w' p sums kept h = h ∙ rw (sums p (first_instant v t), kept) refl

    All-corrected_later :
        (v : Window) (w w₁ w' : W) (p : Uuid) (qs : List Uuid)
        → p < 2 ^ 128
        → All (λ q. q < 2 ^ 128) qs
        → All (λ q. (q == p) ≡ false) qs
        → IsReconciled (p ∷ []) w w₁
        → All (HasCorrected v w₁ w') qs
        → All (HasCorrected v w w') qs
    All-corrected_later v w w₁ w' p [] hp hq ne one h = tt
    All-corrected_later v w w₁ w' p (q ∷ qs) hp (hq, hqs) (ne, nes) one (h, hs) =
        let apart : (u : Window) → bytes_eq (key_of t q v) (key_of t p u) ≡ false =
          λ u. keys_apart t q p v u time hq hp (λ e f. ground arith) in
        (
          corrected_later v w w₁ w' q one.sums (one.others (key_of t q v) (apart, tt)) h,
          All-corrected_later v w w₁ w' p qs hp hqs nes one hs,
        )

    All-apart :
        (p : Uuid) (v : Window) (qs : List Uuid)
        → p < 2 ^ 128
        → All (λ q. q < 2 ^ 128) qs
        → All (λ q. (q == p) ≡ false) qs
        → All (λ q. (u : Window) → bytes_eq (key_of t p v) (key_of t q u) ≡ false) qs
    All-apart p v [] hp hq ne = tt
    All-apart p v (q ∷ qs) hp (hq, hqs) (ne, nes) =
        (λ u. keys_apart t p q v u time hp hq (λ e f. ground arith), All-apart p v qs hp hqs nes)

    reconcile_projects-IsReconciled :
        (ps : List Uuid) (now : Time) (w : W)
        → SameDay now t
        → All (λ p. p < 2 ^ 128) ps
        → Distinct ps
        → IsReconciled ps w (reconcile_projects ps now w)
    unfolding reconcile_projects
    reconcile_projects-IsReconciled [] now w day hp d = record {
      by_days = tt;
      by_months = tt;
      others = λ k h. refl;
      sums = λ p a. refl;
    }
    reconcile_projects-IsReconciled (p ∷ ps) now w day (hp, hps) (ne, d) =
        let w₁ =
          reconcile_period p monthly (date now.year now.month 1) now
            (reconcile_period p daily (date now.year now.month now.day) now w) in
        let w' = reconcile_projects ps now w₁ in
        let one = one-IsReconciled p now w day hp in
        let rest = reconcile_projects-IsReconciled ps now w₁ day hps d in
        let later : (v : Window) → counter (key_of t p v) w' ≡ counter (key_of t p v) w₁ =
          λ v. rest.others (key_of t p v) (All-apart p v ps hp hps ne) in
        record {
          by_days = (
            later by_day ∙ one.by_days.0,
            All-corrected_later by_day w w₁ w' p ps hp hps ne one rest.by_days,
          );
          by_months = (
            later by_month ∙ one.by_months.0,
            All-corrected_later by_month w w₁ w' p ps hp hps ne one rest.by_months,
          );
          others = λ k (h, hs). rest.others k hs ∙ one.others k (h, tt);
          sums = λ q a. rest.sums q a ∙ one.sums q a;
        }

    All-same :
        (v : Window) (w w₁ w' : W) (ps : List Uuid)
        → IsSame be w w₁
        → All (HasCorrected v w₁ w') ps
        → All (HasCorrected v w w') ps
    All-same v w w₁ w' [] same h = tt
    All-same v w w₁ w' (p ∷ ps) same (h, hs) = (
      corrected_later v w w₁ w' p same.sums (same.counters (key_of t p v)) h,
      All-same v w w₁ w' ps same hs,
    )

    IsReconciled-from :
        (ps : List Uuid) (w w₁ w' : W)
        → IsSame be w w₁
        → IsReconciled ps w₁ w'
        → IsReconciled ps w w'
    IsReconciled-from ps w w₁ w' same is = record {
      by_days = All-same by_day w w₁ w' ps same is.by_days;
      by_months = All-same by_month w w₁ w' ps same is.by_months;
      others = λ k h. is.others k h ∙ same.counters k;
      sums = λ q a. is.sums q a ∙ same.sums q a;
    }

    -- One run of the reconciliation, with Redis answering, no one else writing, and the clock in one
    -- day: of each project that its query lists, the counters of the day and of the month are set to
    -- their sum in Postgres exactly if they are there and have drifted from a sum that is not 0 by
    -- more than the fraction 0.05. No other counter and no sum changes. The listed projects are
    -- distinct, with ids of 128 bits.
    pub run_reconcile-IsReconciled :
        (projects : W → Option (List Uuid) × W) (ps : List Uuid) (w : W)
        → (projects w).0 ≡ some ps
        → IsSame be w (projects w).1
        → All (λ p. p < 2 ^ 128) ps
        → Distinct ps
        → IsReconciled ps w (run_reconcile projects w)
    unfolding run_reconcile
    run_reconcile-IsReconciled projects ps w e same hp d =
        let w₁ = (projects w).1 in
        let (now, w₂) = be.now w₁ in
        let same₂ = IsSame-trans w w₁ w₂ same (quiet.now_reads w₁) in
        rw (e, run_reconcile)
          (IsReconciled-from ps w w₂ (reconcile_projects ps now w₂) same₂
            (reconcile_projects-IsReconciled ps now w₂ (quiet.same_day w₁) hp d))
