-- ===== src/Server/Ticks.antt =====
-- `runTickCallbacks`: the forty-tick cycle in which the baddies strafe left and right.
use quintses.Common.{
  ℕ, zero, suc, ◌+◌, ◌%◌, ◌<◌, ◌≡◌, refl, ◌∙◌, Bool, true, false, arith, ◌==◌, ltb, if◌then◌else◌,
  ==_iff, Bool-cases, inl, inr,
}
use quintses.Server.{
  LocalServer, run_tick_callbacks, set_inputs, next_tick, baddie_state, strafe_left, strafe_right,
}

-- `n` calls of `runTickCallbacks`.
unfoldable pub tick_times : ℕ → LocalServer → LocalServer
tick_times zero s = s
tick_times (suc n) s = tick_times n (run_tick_callbacks s).0

tick_times-ticks :
    (n : ℕ) (s : LocalServer) → s.ticks < 40 → (tick_times n s).ticks ≡ (s.ticks + n) % 40
unfolding tick_times run_tick_callbacks
tick_times-ticks zero s h = omega arith
tick_times-ticks (suc n) s h =
    tick_times-ticks n (run_tick_callbacks s).0 (ground arith) ∙ ground arith

tick_times-baddies : (n : ℕ) (s : LocalServer) → (tick_times n s).baddies ≡ s.baddies
unfolding tick_times run_tick_callbacks
tick_times-baddies zero s = refl
tick_times-baddies (suc n) s = tick_times-baddies n (run_tick_callbacks s).0

-- From a counter of 0 on, the call after `n` others tells every baddie to strafe left while the
-- number of calls modulo 40 is below 20, and right otherwise.
pub run_tick_callbacks-cycle :
    (n : ℕ) (s : LocalServer)
    → s.ticks ≡ 0
    → (run_tick_callbacks (tick_times n s)).1
      ≡ set_inputs (if ltb (suc n % 40) 20 then strafe_left else strafe_right) s.baddies
unfolding run_tick_callbacks
run_tick_callbacks-cycle n s h = ground (arith, tick_times-ticks n s, tick_times-baddies n s)

-- How many of the next `n` calls strafe left, from the counter `t` on.
unfoldable pub lefts : ℕ → ℕ → ℕ
lefts zero t = 0
lefts (suc n) t =
    (if baddie_state (next_tick t) == strafe_left then 1 else 0) + lefts n (next_tick t)

-- Whether forty calls strafe left twenty times from each counter below a bound.
balanced_below : ℕ → Bool
balanced_below zero = true
balanced_below (suc t) = if lefts 40 t == 20 then balanced_below t else false

balanced_below-lefts : (bound t : ℕ) → t < bound → balanced_below bound ≡ true → lefts 40 t ≡ 20
unfolding balanced_below
balanced_below-lefts zero t below h = absurd (omega arith)
balanced_below-lefts (suc bound) t below h = elim (Bool-cases (lefts 40 bound == 20)) [
  | inl hit ↦ ground (arith, balanced_below-lefts bound t, (==_iff (lefts 40 bound) 20).0 hit)
  | inr miss ↦ ground arith
]

balanced_table : balanced_below 40 ≡ true
unfolding balanced_below lefts next_tick baddie_state
balanced_table = refl

-- From any counter below 40 on, twenty of forty consecutive calls strafe left, and so as many right.
pub lefts_balanced : (t : ℕ) → t < 40 → lefts 40 t ≡ 20
lefts_balanced t h = balanced_below-lefts 40 t h balanced_table
