-- ===== src/Serving/Returns.antt =====
-- `waitForTermination` of the local server returns, for a server that is told to shut down.
use quintses.Common.{ℕ, ◌+◌, ◌≤◌, ◌≡◌, true, List, [], ◌∷◌, ◌++◌, arith, Bool-cases, inl, inr}
use quintses.Messages.Server.{Matrix}
use quintses.Lifecycle.{Owner, notify_all, built, finished}
use quintses.Lifecycle.Returns.{is_finished}
use quintses.Serving.Rounds.{rank, client-same}
use quintses.Serving.Threads.{Inv, step-Inv, steps-Inv, reached-Inv, steps-append}
use quintses.Serving.Progress.{
  IsEnding, left, thread_moves, owner_moves, pushed, step_ended, steps_ended, steps-ends,
}
use quintses.Serving.{
  WorldFile, is_built, Serving, Event, start, owner_step, construct, await_end, step, steps,
  of_owner, of_thread, of_client, spurious, thread_step,
}

-- How often the owner has to move before `waitForTermination` has returned, the thread being at its end.
abbrev pub needs : Owner → ℕ
needs built = 2
needs finished = 0
needs o = 1

module _ (w : WorldFile) where
  step-needs :
      (e : Event) (es : List Event) (s : Serving)
      → Inv s
      → rank s.thread ≡ 0
      → needs s.owner ≤ owner_moves (e ∷ es)
      → needs (step w e s).owner ≤ owner_moves es
  unfolding step owner_step await_end construct thread_step notify_all
  step-needs of_owner es s inv h k = ground (arith, inv.fits, inv.running)
  step-needs (of_thread n) es s inv h k = ground (arith, h, k)
  step-needs (of_client c) es s inv h k = elim (Bool-cases (is_built s.owner)) [
    | inl b ↦ rw b (ground (arith, k, client-same c s))
    | inr b ↦ rw b k
  ]
  step-needs spurious es s inv h k = ground (arith, k, inv.fits)

  pub steps-needs :
      (es : List Event) (s : Serving)
      → Inv s
      → rank s.thread ≡ 0
      → needs s.owner ≤ owner_moves es
      → is_finished (steps w es s).owner ≡ true
  unfolding steps
  steps-needs [] s inv h k = ground (arith, k)
  steps-needs (e ∷ es) s inv h k =
      steps-needs es (step w e s) (step-Inv w e s inv) (step_ended w e s h)
        (step-needs e es s inv h k)

  ended-needs : (s : Serving) → Inv s → rank s.thread ≡ 0 → needs s.owner ≤ 2
  ended-needs s inv h = ground (arith, inv.fits)

  -- From every state that a schedule of the owner, the thread, the clients and spurious wakeups
  -- reaches with a `ShutdownMessage` waiting in the queue of a loop that runs, or with the loop
  -- left: whichever message the queue hands out each time and whatever the clients do, once the
  -- thread has moved as often as is left (in the loop four times, and once for each message that
  -- waits) and once for each message that is pushed meanwhile, it has ended; and when the owner has
  -- moved twice after that, `waitForTermination` has returned.
  pub shutdown_returns :
      (before es fs : List Event) (identity : Matrix)
      → IsEnding (steps w before (start identity))
      → (let s = steps w before (start identity) in left s.thread s.inbox) + pushed es
        ≤ thread_moves es
      → 2 ≤ owner_moves fs
      → let s = steps w (es ++ fs) (steps w before (start identity)) in
        (rank s.thread ≡ 0) × (is_finished s.owner ≡ true)
  shutdown_returns before es fs identity ending threads owners =
      let s = steps w before (start identity) in
      let s' = steps w es s in
      let inv' : Inv s' = steps-Inv w es s (reached-Inv w before identity) in
      let over : rank s'.thread ≡ 0 = steps-ends w es s ending threads in
      rw (steps-append w es fs s) (
        steps_ended w fs s' over,
        steps-needs fs s' inv' over (omega (arith, ended-needs s' inv' over, owners)),
      )
