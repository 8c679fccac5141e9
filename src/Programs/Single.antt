-- ===== src/Programs/Single.antt =====
-- The player alone: the program ends when its client does.
use quintses.Common.{
  ℕ, ◌+◌, ◌≤◌, ◌≡◌, sym, ◌∙◌, ap, Bool, true, List, [], ◌∷◌, ◌++◌, arith, if◌then◌else◌,
}
use mathlib.Core.Path.{subst}
use quintses.Messages.Server.{Matrix}
use quintses.Client.{Effect, Round, init, sends, renders, draws, swaps, waits, adds_client}
use quintses.Client.Loop.{shutdowns, waitings, mainloop-shutdowns}
use quintses.Lifecycle.Returns.{is_finished}
use quintses.Serving.{WorldFile, Event, is_built, start, steps}
use quintses.Serving.Rounds.{rank}
use quintses.Serving.Threads.{steps-append}
use quintses.Serving.Progress.{IsEnding, has_shutdown, left, thread_moves, owner_moves, pushed}
use quintses.Serving.Delivered.{delivered, delivered-IsEnding}
use quintses.Serving.Returns.{shutdown_returns}
use quintses.Programs.{play, quintses_main, sent}

sent-has_shutdown : (es : List Effect) → 1 ≤ shutdowns es → has_shutdown (sent es) ≡ true
unfolding shutdowns sent
sent-has_shutdown [] h = absurd (omega arith)
sent-has_shutdown (sends msg ∷ es) h = ground (arith, sent-has_shutdown es, h)
sent-has_shutdown (renders msg ∷ es) h = sent-has_shutdown es h
sent-has_shutdown (draws ∷ es) h = sent-has_shutdown es h
sent-has_shutdown (swaps ∷ es) h = sent-has_shutdown es h
sent-has_shutdown (waits ∷ es) h = sent-has_shutdown es h
sent-has_shutdown (adds_client c ∷ es) h = sent-has_shutdown es h

-- If the main loop of the client returns, it has told a local server once to shut down, and a remote one
-- never.
pub play-shutdowns :
    (is_local : Bool) (self : ℕ) (rounds : List Round)
    → (play is_local self rounds).0 ≡ true
    → (shutdowns (play is_local self rounds).1 ≡ (if is_local then 1 else 0))
      × (waitings (play is_local self rounds).1 ≡ 1)
unfolding play init shutdowns waitings
play-shutdowns is_local self rounds h =
    let (told, waited) = mainloop-shutdowns is_local rounds (init self).0 in
    (ground (arith, told, h), ground (arith, waited, h))

-- The player alone, with a server whose constructor has returned: if the main loop of the client
-- returns, if what is pushed to the server is what the client sends, in whatever order with what
-- the threads and the engine do, and if the world has been loaded by then, then the server's thread
-- has ended once it has moved as often as is left and once for each message that is pushed
-- meanwhile, and two moves of the owner later `waitForTermination` has returned.
pub quintses_main_ends :
    (w : WorldFile) (self : ℕ) (rounds : List Round) (before during es fs : List Event)
    (identity : Matrix)
    → (quintses_main self rounds).0 ≡ true
    → is_built (steps w before (start identity)).owner ≡ true
    → delivered during ≡ sent (quintses_main self rounds).1
    → rank (steps w (before ++ during) (start identity)).thread ≤ 5
    → (let s = steps w (before ++ during) (start identity) in left s.thread s.inbox) + pushed es
      ≤ thread_moves es
    → 2 ≤ owner_moves fs
    → let s = steps w (es ++ fs) (steps w (before ++ during) (start identity)) in
      (rank s.thread ≡ 0) × (is_finished s.owner ≡ true)
unfolding quintses_main
quintses_main_ends w self rounds before during es fs identity returns built same loaded threads
      owners =
    let (told, waited) = play-shutdowns true self rounds returns in
    let joined = steps-append w before during (start identity) in
    let tells : has_shutdown (delivered during) ≡ true =
      ap has_shutdown same ∙ sent-has_shutdown (play true self rounds).1 (omega (arith, told)) in
    let ending : IsEnding (steps w (before ++ during) (start identity)) =
      subst IsEnding (sym joined) (
        delivered-IsEnding w during (steps w before (start identity)) built tells
          (subst (λ s. rank s.thread ≤ 5) joined loaded)) in
    shutdown_returns w (before ++ during) es fs identity ending threads owners
