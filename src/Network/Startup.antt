-- ===== src/Network/Startup.antt =====
-- client/remoteserver.cpp: the threads of `RemoteServer::addClient`, `waitForTermination` and
-- `run`, once the socket is connected. What a block does under `m_status_mutex` is one step.
-- `m_service.run` goes on while the `io_service` has work, which it has from the `async_read` of
-- `addClient` on, and returns once there is none or once it is stopped; no message is posted to it
-- before that read. Within it a handler may find an error or an unknown type and stop the service, or
-- let an exception out of `run`, which ends the program.
pub mod Stopping
use quintses.Common.{
  ◌≡◌, refl, Bool, true, false, List, [], ◌∷◌, arith, if◌then◌else◌, ◌&&◌, not, ◌⊎◌, inl, inr,
}

-- Where `addClient` stands: before the test of its loop, asleep in it, behind it, and at its end;
-- and then `waitForTermination`: before the test of its loop, asleep in it, and at its end.
pub data Adder : Type 0 where
  connecting asleep connected reading : Adder
  stopping asleep_stopping terminated : Adder

-- Where `run` stands, before each step; or that an exception has left it.
pub data Runner : Type 0 where
  starting announcing serving closing quitting notifying ended : Runner
  aborted : Runner

-- `has_work` says whether the `async_read` is under way, `stopped` whether `m_service.stop` has
-- been called, `closed` whether the client has been told `serverClosed`.
pub record Startup : Type 0 where
  pub adder : Adder
  pub runner : Runner
  pub running : Bool
  pub has_work : Bool
  pub stopped : Bool
  pub closed : Bool

-- `fails` is a handler that stops the service: `writeMsg` and `readMsg` on an error, and `readMsg` on an
-- unknown type; `throws` is one that `msg->read` throws out of.
pub data Move : Type 0 where
  of_adder of_runner spurious : Move
  fails throws : Move

-- `addClient` as it starts the thread.
unfoldable pub launched : Startup
launched = record {
  adder = connecting;
  runner = starting;
  running = false;
  has_work = false;
  stopped = false;
  closed = false;
}

abbrev pub wake : Adder → Adder
wake asleep = connecting
wake asleep_stopping = stopping
wake a = a

-- `waitForTermination`: the call of `stop`, and the loop.
unfoldable pub stop : Startup → Startup
stop s = record s { adder = stopping; stopped = true }

unfoldable pub await_stop : Startup → Startup
await_stop s = record s { adder = if s.running then asleep_stopping else terminated }

-- The loop of `addClient`, the `async_read` behind it, and what follows; asleep, the owner does nothing.
unfoldable pub adder_step : Adder → Startup → Startup
unfolding stop await_stop
adder_step connecting s = record s { adder = if s.running then connected else asleep }
adder_step connected s = record s { adder = reading; has_work = true }
adder_step reading s = stop s
adder_step stopping s = await_stop s
adder_step a s = s

-- `run`, for a client that is there.
unfoldable pub runner_step : Runner → Startup → Startup
runner_step starting s = record s { runner = announcing; running = true }
runner_step announcing s = record s { runner = serving; adder = wake s.adder }
runner_step serving s = record s {
  runner = if s.has_work && not s.stopped then serving else closing;
}
runner_step closing s = record s { runner = quitting; closed = true }
runner_step quitting s = record s { runner = notifying; running = false }
runner_step notifying s = record s { runner = ended; adder = wake s.adder }
runner_step ended s = s
runner_step aborted s = s

abbrev pub is_aborted : Runner → Bool
is_aborted aborted = true
is_aborted r = false

-- A handler is called.
abbrev pub is_handling : Runner → Bool → Bool
is_handling serving has_work = has_work
is_handling r has_work = false

-- The calls of `m_service.stop` in `writeMsg` and `readMsg`, and an exception of `msg->read`.
unfoldable pub handler_fails : Startup → Startup
handler_fails s = record s { stopped = if is_handling s.runner s.has_work then true else s.stopped }

unfoldable pub handler_throws : Startup → Startup
handler_throws s = record s {
  runner = if is_handling s.runner s.has_work then aborted else s.runner;
}

-- A program that has been ended does nothing.
abbrev pub unless_aborted : Startup → Startup → Startup
unless_aborted s t = if is_aborted s.runner then s else t

unfoldable pub step : Move → Startup → Startup
unfolding adder_step runner_step handler_fails handler_throws
step of_adder s = unless_aborted s (adder_step s.adder s)
step of_runner s = runner_step s.runner s
step spurious s = unless_aborted s (record s { adder = wake s.adder })
step fails s = handler_fails s
step throws s = handler_throws s

unfoldable pub steps : List Move → Startup → Startup
unfolding step
steps [] s = s
steps (e ∷ es) s = steps es (step e s)

-- `m_service.run` has returned.
abbrev pub has_returned : Runner → Bool
has_returned starting = false
has_returned announcing = false
has_returned serving = false
has_returned aborted = false
has_returned r = true

abbrev pub has_ended : Runner → Bool
has_ended ended = true
has_ended r = false

-- `addClient` is behind its loop.
abbrev pub is_connected : Adder → Bool
is_connected connecting = false
is_connected asleep = false
is_connected a = true

abbrev pub is_running : Runner → Bool
is_running starting = false
is_running notifying = false
is_running ended = false
is_running r = true

pub step-running :
    (e : Move) (s : Startup)
    → s.running ≡ is_running s.runner
    → (step e s).running ≡ is_running (step e s).runner
unfolding step adder_step runner_step handler_fails handler_throws
step-running of_adder s h = ground arith
step-running of_runner s h = ground arith
step-running spurious s h = ground arith
step-running fails s h = ground arith
step-running throws s h = ground arith

pub steps-running :
    (es : List Move) (s : Startup)
    → s.running ≡ is_running s.runner
    → (steps es s).running ≡ is_running (steps es s).runner
unfolding steps
steps-running [] s h = h
steps-running (e ∷ es) s h = steps-running es (step e s) (step-running e s h)

-- The read is under way and `m_service.run` has not returned, or it has been stopped.
abbrev IsServing : Startup → Type 0
IsServing s = (s.stopped ≡ true) ⊎ ((s.has_work ≡ true) × (has_returned s.runner ≡ false))

step-IsServing : (e : Move) (s : Startup) → IsServing s → IsServing (step e s)
unfolding step adder_step runner_step handler_fails handler_throws
step-IsServing of_adder s h = ground arith
step-IsServing of_runner s h = ground arith
step-IsServing spurious s h = ground arith
step-IsServing fails s h = ground arith
step-IsServing throws s h = ground arith

steps-IsServing : (es : List Move) (s : Startup) → IsServing s → IsServing (steps es s)
unfolding steps
steps-IsServing [] s h = h
steps-IsServing (e ∷ es) s h = steps-IsServing es (step e s) (step-IsServing e s h)

step_returned :
    (e : Move) (s : Startup) → has_returned s.runner ≡ true → has_returned (step e s).runner ≡ true
unfolding step adder_step runner_step handler_fails handler_throws
step_returned of_adder s h = ground arith
step_returned of_runner s h = ground arith
step_returned spurious s h = ground arith
step_returned fails s h = ground arith
step_returned throws s h = ground arith

steps_returned :
    (es : List Move) (s : Startup)
    → has_returned s.runner ≡ true
    → has_returned (steps es s).runner ≡ true
unfolding steps
steps_returned [] s h = h
steps_returned (e ∷ es) s h = steps_returned es (step e s) (step_returned e s h)

step_stuck :
    (e : Move) (s : Startup)
    → s.running ≡ is_running s.runner
    → has_ended s.runner ≡ true
    → is_connected s.adder ≡ false
    → (has_ended (step e s).runner ≡ true) × (is_connected (step e s).adder ≡ false)
unfolding step adder_step runner_step handler_fails handler_throws
step_stuck of_adder s r h c = (ground arith, ground arith)
step_stuck of_runner s r h c = (ground arith, ground arith)
step_stuck spurious s r h c = (ground arith, ground arith)
step_stuck fails s r h c = (ground arith, ground arith)
step_stuck throws s r h c = (ground arith, ground arith)

steps_stuck :
    (es : List Move) (s : Startup)
    → s.running ≡ is_running s.runner
    → has_ended s.runner ≡ true
    → is_connected s.adder ≡ false
    → is_connected (steps es s).adder ≡ false
unfolding steps
steps_stuck [] s r h c = c
steps_stuck (e ∷ es) s r h c =
    let (h', c') = step_stuck e s r h c in steps_stuck es (step e s) (step-running e s r) h' c'

-- In every schedule of the owner, of the thread that it starts and of spurious wakeups: if the read is
-- under way and `m_service.run` has not returned, then it does not return, whatever comes next, unless
-- `waitForTermination` or a handler stops it.
pub startup_serves :
    (es fs : List Move)
    → (steps es launched).has_work ≡ true
    → has_returned (steps es launched).runner ≡ false
    → (steps fs (steps es launched)).stopped ≡ false
    → has_returned (steps fs (steps es launched)).runner ≡ false
startup_serves es fs work serves goes_on =
    elim (steps-IsServing fs (steps es launched) (inr (work, serves))) [
      | inl stops ↦ absurd (ground arith)
      | inr (more, rest) ↦ rest
    ]

-- In every schedule of `addClient`, of the thread that it starts and of spurious wakeups: if the thread
-- has ended before `addClient` has seen it running, then whatever comes next, `addClient` does not get
-- past its loop, and the thread stays behind `m_service.run`.
pub startup_stuck :
    (es fs : List Move)
    → has_ended (steps es launched).runner ≡ true
    → is_connected (steps es launched).adder ≡ false
    → (is_connected (steps fs (steps es launched)).adder ≡ false)
      × (has_returned (steps fs (steps es launched)).runner ≡ true)
unfolding launched
startup_stuck es fs over alone =
    let s = steps es launched in
    (
      steps_stuck fs s (steps-running es launched refl) over alone,
      steps_returned fs s (ground (arith, over)),
    )
