-- ===== src/Jobs/Runner/Spaced.antt =====
-- The calls of the reconciliation.
use airelay.Base.{
  ℕ, ◌+◌, ◌≤◌, ◌<◌, ◌≡◌, ◌⊎◌, inl, inr, refl, Bool, true, false, leb, List, [], ◌∷◌, Bool-cases,
  arith,
}
use airelay.Jobs.Runner.{
  Moment, second_passes, call_returns, pause, Sleeper, start_sleeper, sleep_over, sleeper_moment,
  sleeper_run, start,
}

-- The time of the last call, or of the start before there is one.
abbrev latest : ℕ → List ℕ → ℕ
latest origin [] = origin
latest origin (t ∷ ts) = t

-- Each call began a minute or more behind the one before it, and the first one behind the start.
abbrev pub AreSpaced : ℕ → List ℕ → Type 0
AreSpaced origin [] = Unit
AreSpaced origin (t ∷ ts) = (latest origin ts + pause ≤ t) × AreSpaced origin ts

-- In a call, or asleep for a minute at most.
abbrev pub IsAwakened : ℕ → Sleeper → Type 0
IsAwakened now s = (s.busy ≡ true) ⊎ ((now < s.wake) × (s.wake ≤ now + pause))

record IsOrdered (origin : ℕ) (now : ℕ) (s : Sleeper) : Type 0 where
  spaced : AreSpaced origin s.calls
  past : latest origin s.calls ≤ now
  rested : (s.busy ≡ true) ⊎ (latest origin s.calls + pause ≤ s.wake)
  awakened : IsAwakened now s

abbrev sleeper : List ℕ → Bool → ℕ → Sleeper
sleeper calls busy wake = record { calls = calls; busy = busy; wake = wake }

idle : {A : Type 0} → (false ≡ true) ⊎ A → A
idle (inl e) = absurd (ground arith)
idle (inr x) = x

sleep_over-IsOrdered :
    (origin now : ℕ) (calls : List ℕ) (busy : Bool) (wake : ℕ)
    → IsOrdered origin now (sleeper calls busy wake)
    → IsOrdered origin (now + 1) (sleep_over (now + 1) (sleeper calls busy wake))
unfolding sleep_over
sleep_over-IsOrdered origin now calls true wake h = record {
  spaced = h.spaced;
  past = omega (arith, h.past);
  rested = inl refl;
  awakened = inl refl;
}
sleep_over-IsOrdered origin now calls false wake h = elim (Bool-cases (leb wake (now + 1))) [
  | inl e ↦
      let due : wake ≤ now + 1 = ground arith in
      rw e (record {
        spaced = (omega (arith, idle h.rested), h.spaced);
        past = omega arith;
        rested = inl refl;
        awakened = inl refl;
      })
  | inr e ↦
      let early : now + 1 < wake = ground arith in
      rw e (record {
        spaced = h.spaced;
        past = omega (arith, h.past);
        rested = h.rested;
        awakened = inr (early, omega (arith, (idle h.awakened).1));
      })
]

returns-IsOrdered :
    (origin now : ℕ) (calls : List ℕ) (busy : Bool) (wake : ℕ)
    → IsOrdered origin now (sleeper calls busy wake)
    → IsOrdered origin now (sleeper_moment call_returns (now, sleeper calls busy wake)).1
unfolding sleeper_moment
returns-IsOrdered origin now calls false wake h = h
returns-IsOrdered origin now calls true wake h = record {
  spaced = h.spaced;
  past = h.past;
  rested = inr (omega (arith, h.past));
  awakened = inr (omega arith, omega arith);
}

sleeper_run-IsOrdered :
    (origin : ℕ) (ms : List Moment) (now : ℕ) (s : Sleeper)
    → IsOrdered origin now s
    → let (end, s') = sleeper_run ms (now, s) in IsOrdered origin end s'
unfolding sleeper_run sleeper_moment
sleeper_run-IsOrdered origin [] now s h = h
sleeper_run-IsOrdered origin (second_passes ∷ ms) now s h =
    sleeper_run-IsOrdered origin ms (now + 1) (sleep_over (now + 1) s)
      (sleep_over-IsOrdered origin now s.calls s.busy s.wake h)
sleeper_run-IsOrdered origin (call_returns ∷ ms) now s h =
    sleeper_run-IsOrdered origin ms now (sleeper_moment call_returns (now, s)).1
      (returns-IsOrdered origin now s.calls s.busy s.wake h)

-- However long its calls last, the reconciliation is called a minute or more behind the call before,
-- or behind the start, and at any time it is in a call or wakes within the next minute.
pub start-AreSpaced :
    (ms : List Moment) (now : ℕ)
    → let (end, s) = sleeper_run ms (now, (start now).reconcile) in
      AreSpaced now s.calls × IsAwakened end s
unfolding start start_sleeper
start-AreSpaced ms now =
    let h = sleeper_run-IsOrdered now ms now (start_sleeper now) (record {
      spaced = tt;
      past = omega arith;
      rested = inr (omega arith);
      awakened = inr (omega arith, omega arith);
    }) in
    (h.spaced, h.awakened)
