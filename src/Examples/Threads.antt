-- ===== src/Examples/Threads.antt =====
-- A thread that counts its rounds, and the threads of a remote server.
use quintses.Common.{ℕ, suc, ◌≡◌, refl, true, false, List, [], ◌∷◌, ◌++◌, arith}
use quintses.Lifecycle as Threads
use quintses.Lifecycle.{Event, of_owner, of_thread, spurious, start}
use quintses.Lifecycle.Progress.{rank}
use quintses.Lifecycle.Returns.{is_finished, finish_returns}
use quintses.Lifecycle.Work.{finish-work}
use quintses.Network.Startup as Remote
use quintses.Network.Startup.{
  launched, of_adder, of_runner, is_connected, has_returned, startup_stuck, startup_serves,
}

-- The owner goes to sleep, the thread starts and wakes it.
abbrev built : List Event
built = of_owner ∷ of_thread ∷ of_thread ∷ of_thread ∷ []

-- `finish` is called, and the owner goes to sleep in it.
abbrev told : List Event
told =
    of_owner ∷ of_thread ∷ of_thread ∷ of_thread ∷ of_owner ∷ of_thread ∷ of_owner ∷ of_owner ∷ []

abbrev seven : List Event
seven =
    of_thread ∷ spurious ∷ of_thread ∷ of_owner ∷ of_thread ∷ of_thread ∷ of_thread ∷ of_thread
    ∷ of_thread ∷ []

finish_returns_example :
    let s =
      Threads.steps
        (λ n. 10)
        suc
        (λ n. 0)
        (seven ++ of_owner ∷ [])
        (Threads.steps (λ n. 10) suc (λ n. 0) told (start 5)) in
    (rank s.thread ≡ 0) × (is_finished s.owner ≡ true)
unfolding Threads.steps Threads.step Threads.owner_step Threads.thread_step Threads.notify_all start
finish_returns_example =
    finish_returns (λ n. 10) suc (λ n. 0) told seven (of_owner ∷ []) 5 refl (omega arith)
      (omega arith)

finish-work_example :
    (n : ℕ) × ((Threads.steps
        (λ n. 10)
        suc
        (λ n. 0)
        (told ++ (seven ++ of_owner ∷ []))
        (start 5)).work
      ≡ 0)
unfolding Threads.steps Threads.step Threads.owner_step Threads.thread_step Threads.notify_all start
finish-work_example = finish-work (λ n. 10) suc (λ n. 0) 5 (told ++ (seven ++ of_owner ∷ [])) refl

abbrev pub six_moves : List Remote.Move
six_moves = of_runner ∷ of_runner ∷ of_runner ∷ of_runner ∷ of_runner ∷ of_runner ∷ []

startup_stuck_example :
    (is_connected (Remote.steps (of_adder ∷ of_adder ∷ []) (Remote.steps six_moves launched)).adder
      ≡ false)
    × (has_returned
          (Remote.steps (of_adder ∷ of_adder ∷ []) (Remote.steps six_moves launched)).runner
        ≡ true)
unfolding Remote.steps Remote.step Remote.adder_step Remote.runner_step launched
startup_stuck_example = startup_stuck six_moves (of_adder ∷ of_adder ∷ []) refl refl

-- `addClient` returns, and `waitForTermination` goes to sleep.
abbrev pub waits : List Remote.Move
waits = of_runner ∷ of_adder ∷ of_adder ∷ of_runner ∷ of_adder ∷ of_adder ∷ []
