-- ===== src/Network/Startup/Stopping.antt =====
-- How the connection's thread ends, once `m_service.stop` has been called by `waitForTermination` or by a
-- handler.
use quintses.Common.{ℕ, ◌-◌, ◌≤◌, ◌≡◌, refl, Bool, true, false, arith, ◌⊎◌, inl, inr}
use quintses.Network.Startup.{
  Adder, Runner, Startup, Move, connecting, asleep, connected, reading, stopping, asleep_stopping,
  terminated, starting, announcing, serving, closing, quitting, notifying, ended, aborted,
  of_runner, launched, adder_step, runner_step, handler_fails, handler_throws, step, is_running,
  is_aborted,
}

-- What is left of `run` once `m_service.stop` has been called.
abbrev pub rank : Runner → ℕ
rank starting = 6
rank announcing = 5
rank serving = 4
rank closing = 3
rank quitting = 2
rank notifying = 1
rank ended = 0
rank aborted = 0

-- `waitForTermination` has been called.
abbrev pub is_stopping : Adder → Bool
is_stopping stopping = true
is_stopping asleep_stopping = true
is_stopping terminated = true
is_stopping a = false

-- `addClient` has returned.
abbrev pub is_reading : Adder → Bool
is_reading reading = true
is_reading a = is_stopping a

abbrev pub is_terminated : Adder → Bool
is_terminated terminated = true
is_terminated a = false

-- Whether a step is one of the thread.
abbrev pub runs : Move → ℕ
runs of_runner = 1
runs e = 0

-- An owner that is asleep in `waitForTermination` has a notification to come.
abbrev Fits : Adder → ℕ → Type 0
Fits connecting r = Unit
Fits asleep r = Unit
Fits connected r = r ≤ 5
Fits reading r = r ≤ 5
Fits stopping r = r ≤ 5
Fits asleep_stopping r = (1 ≤ r) × (r ≤ 5)
Fits terminated r = r ≤ 1

pub record Inv (s : Startup) : Type 0 where
  pub running : s.running ≡ is_running s.runner
  pub stops : (is_stopping s.adder ≡ false) ⊎ (s.stopped ≡ true)
  pub fits : (is_aborted s.runner ≡ true) ⊎ Fits s.adder (rank s.runner)
  pub works : (s.has_work ≡ false) ⊎ (is_reading s.adder ≡ true)

pub launched-Inv : Inv launched
unfolding launched
launched-Inv = record { running = refl; stops = inl refl; fits = inr tt; works = inl refl }

pub step-Inv : (e : Move) (s : Startup) → Inv s → Inv (step e s)
unfolding step adder_step runner_step handler_fails handler_throws
step-Inv e s inv = record {
  running = ground (arith, inv.running);
  stops = ground (arith, inv.stops);
  fits = ground (arith, inv.running, inv.fits);
  works = ground (arith, inv.works);
}

-- Once the service is stopped, it stays so, and every step of the thread brings it nearer to its end.
pub step-rank :
    (e : Move) (s : Startup)
    → s.stopped ≡ true
    → (rank (step e s).runner ≤ rank s.runner - runs e) × ((step e s).stopped ≡ true)
unfolding step adder_step runner_step handler_fails handler_throws
step-rank e s h = (ground (arith, h), ground (arith, h))

pub step-is_reading :
    (e : Move) (s : Startup) → is_reading s.adder ≡ true → is_reading (step e s).adder ≡ true
unfolding step adder_step runner_step handler_fails handler_throws
step-is_reading e s h = ground (arith, h)
