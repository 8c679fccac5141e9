-- ===== src/Programs/Parts.antt =====
-- qntsrv.cpp: the server's part of a schedule of the program, and what the watcher and the main
-- function do.
use quintses.Common.{
  ℕ, suc, ◌≤◌, ◌≡◌, refl, sym, ◌∙◌, ap, Bool, true, false, List, [], ◌∷◌, ◌++◌, arith, ◌⊎◌,
}
use mathlib.Core.Path.{subst}
use quintses.Messages.Server.{shutdown}
use quintses.Lifecycle
use quintses.Lifecycle.Returns.{is_finished}
use quintses.Serving as Server
use quintses.Serving.{
  WorldFile, Serving, is_built, of_owner, of_thread, of_client, spurious, pushes, owner_step,
}
use quintses.Serving.Rounds.{rank}
use quintses.Serving.Threads.{Inv, step-Inv, steps-append}
use quintses.Serving.Progress.{step_ended}
use quintses.Serving.Returns.{steps-needs}
use quintses.Programs.{
  Qntsrv, Event, Main, watch, main_step, step, steps, of_server, signals, of_watcher, of_main,
  serving_clients, deleting, returned, aborted, accepts, accept_fails, connection_ends, read_throws,
  accept_one, accept_none, lose_one, read_fails,
}

-- The steps of the server's threads in a schedule of the program.
unfoldable pub server_events : List Event → List Server.Event
server_events [] = []
server_events (of_server e ∷ es) = e ∷ server_events es
server_events (signals ∷ es) = of_client (pushes (shutdown 0)) ∷ server_events es
server_events (e ∷ es) = server_events es

abbrev pub watcher_moves : List Event → ℕ
watcher_moves [] = 0
watcher_moves (of_watcher ∷ es) = suc (watcher_moves es)
watcher_moves (e ∷ es) = watcher_moves es

abbrev pub main_moves : List Event → ℕ
main_moves [] = 0
main_moves (of_main ∷ es) = suc (main_moves es)
main_moves (e ∷ es) = main_moves es

-- What is left of the main function, once the `io_service` is stopped.
abbrev pub main_left : Main → ℕ
main_left serving_clients = 2
main_left deleting = 1
main_left m = 0

-- The main function is in `io_service.run` or has been ended there; or it is behind it.
abbrev pub is_early : Main → Bool
is_early serving_clients = true
is_early aborted = true
is_early m = false

abbrev pub is_stopping : Main → Bool
is_stopping deleting = true
is_stopping returned = true
is_stopping m = false

main-serving : (m : Main) (q : Qntsrv) → (main_step m q).serving ≡ q.serving
unfolding main_step
main-serving m q = ground arith

module _ (w : WorldFile) where
  pub steps-serving :
      (es : List Event) (q : Qntsrv)
      → (steps w es q).serving ≡ Server.steps w (server_events es) q.serving
  unfolding steps step watch accept_one accept_none lose_one read_fails Server.steps server_events
  steps-serving [] q = refl
  steps-serving (of_server e ∷ es) q = steps-serving es (step w (of_server e) q)
  steps-serving (signals ∷ es) q = steps-serving es (step w signals q)
  steps-serving (of_watcher ∷ es) q = steps-serving es (step w of_watcher q)
  steps-serving (of_main ∷ es) q =
      steps-serving es (step w of_main q)
      ∙ ap (Server.steps w (server_events es)) (main-serving q.main q)
  steps-serving (accepts ∷ es) q = steps-serving es (step w accepts q)
  steps-serving (accept_fails ∷ es) q = steps-serving es (step w accept_fails q)
  steps-serving (connection_ends ∷ es) q = steps-serving es (step w connection_ends q)
  steps-serving (read_throws ∷ es) q = steps-serving es (step w read_throws q)

  -- The server has come to its end, and `waitForTermination` has returned.
  pub record Over (s : Serving) : Type 0 where
    pub inv : Inv s
    pub ended : rank s.thread ≡ 0
    pub finished : is_finished s.owner ≡ true

  pub step-Over : (e : Server.Event) (s : Serving) → Over s → Over (Server.step w e s)
  unfolding Server.steps
  step-Over e s o = record {
    inv = step-Inv w e s o.inv;
    ended = step_ended w e s o.ended;
    finished = steps-needs w (e ∷ []) s o.inv o.ended (ground (arith, o.finished));
  }

  program-Over : (e : Event) (q : Qntsrv) → Over q.serving → Over (step w e q).serving
  unfolding step watch accept_one accept_none lose_one read_fails
  program-Over (of_server e) q o = step-Over e q.serving o
  program-Over signals q o = step-Over (of_client (pushes (shutdown 0))) q.serving o
  program-Over of_watcher q o = o
  program-Over accepts q o = o
  program-Over accept_fails q o = o
  program-Over connection_ends q o = o
  program-Over read_throws q o = o
  program-Over of_main q o = subst Over (sym (main-serving q.main q)) o

  step_stopped :
      (e : Event) (es : List Event) (q : Qntsrv)
      → is_finished q.serving.owner ≡ true
      → (q.stopped ≡ true) ⊎ (1 ≤ watcher_moves (e ∷ es))
      → ((step w e q).stopped ≡ true) ⊎ (1 ≤ watcher_moves es)
  unfolding step watch main_step accept_one accept_none lose_one read_fails
  step_stopped e es q o h = ground (arith, o, h)

  -- The watcher stops the `io_service`.
  pub steps_stopped :
      (es : List Event) (q : Qntsrv)
      → Over q.serving
      → (q.stopped ≡ true) ⊎ (1 ≤ watcher_moves es)
      → (steps w es q).stopped ≡ true
  unfolding steps
  steps_stopped [] q o h = ground (arith, h)
  steps_stopped (e ∷ es) q o h =
      steps_stopped es (step w e q) (program-Over e q o) (step_stopped e es q o.finished h)

  -- While no accept has failed: `io_service.run` ends only when it has been stopped, which it is once
  -- `waitForTermination` has returned.
  abbrev pub IsCalm : Qntsrv → Type 0
  IsCalm q =
      (q.accepting ≡ false)
      ⊎ (((q.stopped ≡ false) ⊎ (is_finished q.serving.owner ≡ true))
          × ((is_early q.main ≡ true) ⊎ ((q.stopped ≡ true) × (is_stopping q.main ≡ true))))

  server_finished :
      (e : Server.Event) (s : Serving)
      → Inv s
      → is_finished s.owner ≡ true
      → is_finished (Server.step w e s).owner ≡ true
  unfolding Server.step Server.thread_step Server.owner_step Server.client_step Server.does
      Lifecycle.notify_all
  server_finished of_owner s inv h = ground (arith, h)
  server_finished (of_thread n) s inv h = ground (arith, h, inv.fits)
  server_finished (of_client c) s inv h = ground (arith, h)
  server_finished spurious s inv h = ground (arith, h)

  program-Inv : (e : Event) (q : Qntsrv) → Inv q.serving → Inv (step w e q).serving
  unfolding step watch accept_one accept_none lose_one read_fails
  program-Inv (of_server e) q inv = step-Inv w e q.serving inv
  program-Inv signals q inv = step-Inv w (of_client (pushes (shutdown 0))) q.serving inv
  program-Inv of_main q inv = subst Inv (sym (main-serving q.main q)) inv
  program-Inv of_watcher q inv = inv
  program-Inv accepts q inv = inv
  program-Inv accept_fails q inv = inv
  program-Inv connection_ends q inv = inv
  program-Inv read_throws q inv = inv

  step-IsCalm : (e : Event) (q : Qntsrv) → Inv q.serving → IsCalm q → IsCalm (step w e q)
  unfolding step watch main_step accept_one accept_none lose_one read_fails
  step-IsCalm (of_server e) q inv h = ground (arith, h, server_finished e q.serving inv)
  step-IsCalm signals q inv h =
      ground (arith, h, server_finished (of_client (pushes (shutdown 0))) q.serving inv)
  step-IsCalm of_watcher q inv h = ground (arith, h)
  step-IsCalm of_main q inv h = ground (arith, h)
  step-IsCalm accepts q inv h = ground (arith, h)
  step-IsCalm accept_fails q inv h = ground (arith, h)
  step-IsCalm connection_ends q inv h = ground (arith, h)
  step-IsCalm read_throws q inv h = ground (arith, h)

  pub steps-IsCalm :
      (es : List Event) (q : Qntsrv)
      → Inv q.serving × IsCalm q
      → Inv (steps w es q).serving × IsCalm (steps w es q)
  unfolding steps
  steps-IsCalm [] q calm = calm
  steps-IsCalm (e ∷ es) q (inv, h) =
      steps-IsCalm es (step w e q) (program-Inv e q inv, step-IsCalm e q inv h)

  step-main :
      (e : Event) (es : List Event) (q : Qntsrv)
      → q.stopped ≡ true
      → main_left q.main ≤ main_moves (e ∷ es)
      → ((step w e q).stopped ≡ true) × (main_left (step w e q).main ≤ main_moves es)
  unfolding step watch main_step accept_one accept_none lose_one read_fails
  step-main e es q h k = (ground (arith, h), ground (arith, h, k))

  -- The main function ends, once the `io_service` is stopped.
  pub steps-main :
      (es : List Event) (q : Qntsrv)
      → q.stopped ≡ true
      → main_left q.main ≤ main_moves es
      → main_left (steps w es q).main ≡ 0
  unfolding steps
  steps-main [] q h k = ground (arith, k)
  steps-main (e ∷ es) q h k =
      let (h', k') = step-main e es q h k in steps-main es (step w e q) h' k'

  pub server_events-append :
      (es fs : List Event) → server_events (es ++ fs) ≡ server_events es ++ server_events fs
  unfolding server_events
  server_events-append [] fs = refl
  server_events-append (of_server e ∷ es) fs = ap (◌∷◌ e) (server_events-append es fs)
  server_events-append (signals ∷ es) fs =
      ap (◌∷◌ (of_client (pushes (shutdown 0)))) (server_events-append es fs)
  server_events-append (of_watcher ∷ es) fs = server_events-append es fs
  server_events-append (of_main ∷ es) fs = server_events-append es fs
  server_events-append (accepts ∷ es) fs = server_events-append es fs
  server_events-append (accept_fails ∷ es) fs = server_events-append es fs
  server_events-append (connection_ends ∷ es) fs = server_events-append es fs
  server_events-append (read_throws ∷ es) fs = server_events-append es fs

  -- The server's part of two schedules, one after the other.
  pub both-serving :
      (es fs : List Event) (q : Qntsrv)
      → (steps w (es ++ fs) q).serving
        ≡ Server.steps w (server_events fs) (Server.steps w (server_events es) q.serving)
  both-serving es fs q =
      steps-serving (es ++ fs) q
      ∙ ap (λ l. Server.steps w l q.serving) (server_events-append es fs)
      ∙ steps-append w (server_events es) (server_events fs) q.serving
