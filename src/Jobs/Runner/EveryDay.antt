-- ===== src/Jobs/Runner/EveryDay.antt =====
-- The calls of a job with a ticker, whose calls each last less than a day.
use airelay.Base.{
  ℕ, zero, suc, ◌+◌, ◌-◌, ◌<◌, ◌≡◌, refl, ap, ◌∙◌, true, false, Option, none, some, List, [], ◌∷◌,
  ◌++◌, All, arith, ◌==◌, length,
}
use airelay.Jobs.Runner.{
  Moment, second_passes, call_returns, day, Looper, start_looper, looper_moment, looper_run,
  take_tick, ticker_at, new_ticker, start,
}

-- The second at which nothing else happens, n times.
unfoldable pub seconds : ℕ → List Moment
seconds zero = []
seconds (suc n) = second_passes ∷ seconds n

-- Calls that last so many seconds, the first at once and each other at the next tick.
unfoldable pub calls_of : ℕ → List ℕ → List Moment
unfolding seconds
calls_of last [] = []
calls_of last (d ∷ ds) = seconds (day - last) ++ (seconds d ++ call_returns ∷ calls_of d ds)

-- The times from `t` on, a day apart, in front of others, the last one first.
unfoldable pub every_day : ℕ → ℕ → List ℕ → List ℕ
every_day zero t earlier = earlier
every_day (suc k) t earlier = every_day k (t + day) (t ∷ earlier)

looper_run_append :
    (ms ns : List Moment) (l : ℕ × Looper)
    → looper_run (ms ++ ns) l ≡ looper_run ns (looper_run ms l)
unfolding looper_run
looper_run_append [] ns l = refl
looper_run_append (m ∷ ms) ns l = looper_run_append ms ns (looper_moment m l)

-- In a call, and between calls, with no tick in the channel.
abbrev calling : Option ℕ → List ℕ → Looper
calling tick_at calls = record { calls = calls; busy = true; tick_at = tick_at; tick = false }

abbrev waiting : ℕ → List ℕ → Looper
waiting t calls = record { calls = calls; busy = false; tick_at = some t; tick = false }

now-== : (now t : ℕ) → now + 1 < t → (now + 1 == t) ≡ false
now-== now t h = ground arith

second-waiting :
    (now t : ℕ) (cs : List ℕ)
    → now + 1 < t
    → looper_moment second_passes (now, waiting t cs) ≡ (now + 1, waiting t cs)
unfolding looper_moment take_tick ticker_at
second-waiting now t cs h = rw (now-== now t h) refl

second-calling :
    (now t : ℕ) (cs : List ℕ)
    → now + 1 < t
    → looper_moment second_passes (now, calling (some t) cs) ≡ (now + 1, calling (some t) cs)
unfolding looper_moment take_tick ticker_at
second-calling now t cs h = rw (now-== now t h) refl

second-first :
    (now : ℕ) (cs : List ℕ)
    → looper_moment second_passes (now, calling none cs) ≡ (now + 1, calling none cs)
unfolding looper_moment take_tick ticker_at
second-first now cs = refl

seconds_first :
    (n now : ℕ) (cs : List ℕ)
    → looper_run (seconds n) (now, calling none cs) ≡ (now + n, calling none cs)
unfolding looper_run seconds
seconds_first zero now cs = ap (λ x. (x, calling none cs)) (omega arith)
seconds_first (suc n) now cs =
    ap (looper_run (seconds n)) (second-first now cs)
    ∙ seconds_first n (now + 1) cs
    ∙ ap (λ x. (x, calling none cs)) (omega arith)

-- Where seconds before `t` leave a state as it is, so do many.
module _ (t : ℕ) (l : Looper)
    (still : (now : ℕ) → now + 1 < t → looper_moment second_passes (now, l) ≡ (now + 1, l)) where
  seconds_still : (n now : ℕ) → now + n < t → looper_run (seconds n) (now, l) ≡ (now + n, l)
  unfolding looper_run seconds
  seconds_still zero now h = ap (λ x. (x, l)) (omega arith)
  seconds_still (suc n) now h =
      ap (looper_run (seconds n)) (still now (omega arith))
      ∙ seconds_still n (now + 1) (omega arith)
      ∙ ap (λ x. (x, l)) (omega arith)

tick :
    (now t : ℕ) (cs : List ℕ)
    → now + 1 ≡ t
    → looper_moment second_passes (now, waiting t cs) ≡ (t, calling (some (t + day)) (t ∷ cs))
unfolding looper_moment take_tick ticker_at
tick now t cs h =
    let e : (now + 1 == t) ≡ true = ground arith in
    rw e (ap (λ x. (x, calling (some (t + day)) (x ∷ cs))) h)

wait :
    (n now t : ℕ) (cs : List ℕ)
    → now + suc n ≡ t
    → looper_run (seconds (suc n)) (now, waiting t cs) ≡ (t, calling (some (t + day)) (t ∷ cs))
unfolding looper_run seconds
wait zero now t cs h = tick now t cs h
wait (suc n) now t cs h =
    ap (looper_run (seconds (suc n))) (second-waiting now t cs (omega arith))
    ∙ wait n (now + 1) t cs (omega arith)

return_first :
    (now : ℕ) (cs : List ℕ)
    → looper_moment call_returns (now, calling none cs) ≡ (now, waiting (now + day) cs)
unfolding looper_moment take_tick new_ticker
return_first now cs = refl

return_calling :
    (now t : ℕ) (cs : List ℕ)
    → looper_moment call_returns (now, calling (some t) cs) ≡ (now, waiting t cs)
unfolding looper_moment take_tick new_ticker
return_calling now t cs = refl

-- From a tick to the end of the call that it starts.
one_call :
    (n d now t : ℕ) (ms : List Moment) (cs : List ℕ)
    → now + suc n ≡ t
    → d < day
    → looper_run (seconds (suc n) ++ (seconds d ++ call_returns ∷ ms)) (now, waiting t cs)
      ≡ looper_run ms (t + d, waiting (t + day) (t ∷ cs))
one_call n d now t ms cs h k =
    looper_run_append (seconds (suc n)) (seconds d ++ call_returns ∷ ms) (now, waiting t cs)
    ∙ ap (looper_run (seconds d ++ call_returns ∷ ms)) (wait n now t cs h)
    ∙ looper_run_append (seconds d) (call_returns ∷ ms) (t, calling (some (t + day)) (t ∷ cs))
    ∙ ap (looper_run (call_returns ∷ ms)) (
        seconds_still (t + day) (calling (some (t + day)) (t ∷ cs))
          (λ s l. second-calling s (t + day) (t ∷ cs) l) d t (omega arith))
    ∙ unfold looper_run in ap (looper_run ms) (return_calling (t + d) (t + day) (t ∷ cs))

-- The wait for the tick, from the end of a call on, is not empty.
next_call :
    (m d now t : ℕ) (ms : List Moment) (cs : List ℕ)
    → 0 < m
    → now + m ≡ t
    → d < day
    → looper_run (seconds m ++ (seconds d ++ call_returns ∷ ms)) (now, waiting t cs)
      ≡ looper_run ms (t + d, waiting (t + day) (t ∷ cs))
next_call zero d now t ms cs h e k = absurd (omega arith)
next_call (suc n) d now t ms cs h e k = one_call n d now t ms cs e k

calls-calls_of :
    (ds : List ℕ) (last now t : ℕ) (cs : List ℕ)
    → All (λ d. d < day) ds
    → last < day
    → now + (day - last) ≡ t
    → (looper_run (calls_of last ds) (now, waiting t cs)).1.calls ≡ every_day (length ds) t cs
unfolding calls_of every_day looper_run
calls-calls_of [] last now t cs h k e = refl
calls-calls_of (d ∷ ds) last now t cs h k e =
    ap (λ x. x.1.calls) (next_call (day - last) d now t (calls_of d ds) cs (omega arith) e h.0)
    ∙ calls-calls_of ds d (t + d) (t + day) (t ∷ cs) h.1 h.0 (omega (arith, h.0))

first_call :
    (d now : ℕ) (ms : List Moment)
    → looper_run (seconds d ++ call_returns ∷ ms) (now, start_looper now)
      ≡ looper_run ms (now + d, waiting (now + d + day) (now ∷ []))
unfolding start_looper looper_run
first_call d now ms =
    looper_run_append (seconds d) (call_returns ∷ ms) (now, start_looper now)
    ∙ ap (looper_run (call_returns ∷ ms)) (seconds_first d now (now ∷ []))
    ∙ ap (looper_run ms) (return_first (now + d) (now ∷ []))

-- When the calls of a goroutine began, where the first lasts `d` seconds and the later ones `ds`.
abbrev pub calls_lasting : ℕ → List ℕ → ℕ → Looper → List ℕ
calls_lasting d ds now l = (looper_run (seconds d ++ call_returns ∷ calls_of 0 ds) (now, l)).1.calls

start_looper-every_day :
    (d now : ℕ) (ds : List ℕ)
    → All (λ n. n < day) ds
    → calls_lasting d ds now (start_looper now) ≡ every_day (length ds) (now + d + day) (now ∷ [])
start_looper-every_day d now ds h =
    ap (λ x. x.1.calls) (first_call d now (calls_of 0 ds))
    ∙ calls-calls_of ds 0 (now + d) (now + d + day) (now ∷ []) h (omega arith) (omega arith)

-- Each job with a ticker is called at the start. Where that call lasts `d` seconds, and each later one
-- less than a day, the later ones begin exactly a day apart, the first of them a day behind the end
-- of the call at the start: no tick is lost and none is taken late.
pub start-every_day :
    (d now : ℕ) (ds : List ℕ)
    → All (λ n. n < day) ds
    → let times = every_day (length ds) (now + d + day) (now ∷ []) in
      (calls_lasting d ds now (start now).pricing_sync ≡ times)
      × (calls_lasting d ds now (start now).partition ≡ times)
      × (calls_lasting d ds now (start now).ttl_sweep ≡ times)
unfolding start
start-every_day d now ds h = let e = start_looper-every_day d now ds h in (e, e, e)
