-- ===== src/Examples/Programs.antt =====
-- A player who quits, and a server that is told to end by a signal.
use quintses.Common.{
  ◌≡◌, refl, All, ◌⊎◌, inr, if◌then◌else◌, true, false, List, [], ◌∷◌, ◌++◌, arith,
}
use quintses.Messages.Server.{shutdown, load_player, input, sender}
use quintses.Server as Model
use quintses.Server.Registered.{is_registered}
use quintses.Server.{player, add_client, run_tick_callbacks}
use quintses.World.{load_world}
use quintses.Client as Player
use quintses.Client.{Round, delete_window, key_press, space}
use quintses.Lifecycle.Returns.{is_finished}
use quintses.Serving as Threads
use quintses.Serving.{of_owner, of_thread, of_client, pushes, adds}
use quintses.Serving.Delivered.{delivered}
use quintses.Serving.Rounds.{rank}
use quintses.Programs.{
  Event, start, steps, of_server, signals, of_watcher, of_main, accepts, quintses_main, sent,
}
use quintses.Client.Loop.{shutdowns, waitings}
use quintses.Network.Startup as Remote
use quintses.Network.Startup.Stopping.{is_terminated, is_stopping}
use quintses.Network.Contract.{local_server}
use quintses.Programs.Session.{session, act, acts, take_one}
use quintses.Network.Startup.{is_aborted}
use quintses.Programs.Remote.{
  Turn, of_player, of_thread, wakes, handler_fails, turns, turn, player_step, thread_step,
  qntcli_start,
}
use quintses.Programs.Remote.Ending.{qntcli_ends}
use quintses.Programs.Single.{quintses_main_ends}
use quintses.Examples.Serving.{no_file, waits}

-- The player holds a key, and closes the window.
abbrev quits : List Round
quits =
    record { messages = []; events = key_press space ∷ []; closed = false }
    ∷ record { messages = []; events = delete_window ∷ []; closed = false }
    ∷ []

abbrev constructed : List Threads.Event
constructed = of_thread 0 ∷ of_thread 0 ∷ of_thread 0 ∷ of_owner ∷ []

abbrev plays : List Threads.Event
plays =
    of_client (adds 7)
    ∷ of_client (pushes (load_player 7 player))
    ∷ of_thread 0
    ∷ of_thread 0
    ∷ of_client (pushes (input 7 128))
    ∷ of_client (pushes (shutdown 7))
    ∷ []

abbrev rest : List Threads.Event
rest = of_thread 0 ∷ of_thread 0 ∷ of_thread 0 ∷ of_thread 0 ∷ of_thread 0 ∷ of_thread 0 ∷ []

quintses_main_ends_example :
    let s =
      Threads.steps no_file
        (rest ++ waits)
        (Threads.steps no_file (constructed ++ plays) (Threads.start [])) in
    (rank s.thread ≡ 0) × (is_finished s.owner ≡ true)
unfolding quintses_main Player.mainloop Player.process_events delivered sent Threads.steps
    Threads.start load_world Model.handle Model.load_player Player.init
quintses_main_ends_example =
    quintses_main_ends no_file 7 quits constructed plays rest waits [] refl refl refl (omega arith)
      (omega arith) (omega arith)

abbrev of_servers : List Threads.Event → List Event
of_servers [] = []
of_servers (e ∷ es) = of_server e ∷ of_servers es

abbrev signalled : List Event
signalled = of_server (of_thread 0) ∷ of_watcher ∷ accepts ∷ signals ∷ of_main ∷ []

-- The player's program: the thread and the constructor of the client come to their ends, a round is
-- played, and a handler fails.
abbrev drops : List Turn
drops =
    of_thread
    ∷ of_player [] []
    ∷ of_player [] []
    ∷ of_thread
    ∷ of_player [] (key_press space ∷ [])
    ∷ handler_fails
    ∷ []

abbrev six_turns : List Turn
six_turns = of_thread ∷ of_thread ∷ of_thread ∷ wakes ∷ of_thread ∷ of_thread ∷ of_thread ∷ []

abbrev rounds : List Turn
rounds = of_player [] [] ∷ of_player [] [] ∷ []

qntcli_ends_example :
    let after =
      turns rounds
        (turns six_turns (turns (of_player [] [] ∷ []) (turns drops (qntcli_start 7)))) in
    ((is_terminated after.connection.adder ≡ true) ⊎ (is_aborted after.connection.runner ≡ true))
    × (shutdowns after.calls ≡ 0)
    × (waitings after.calls ≡ (if is_stopping after.connection.adder then 1 else 0))
unfolding turns turn player_step thread_step Remote.step Remote.adder_step Remote.runner_step
    Remote.handler_fails qntcli_start Remote.launched
qntcli_ends_example =
    qntcli_ends 7 drops (of_player [] [] ∷ []) six_turns rounds refl (inr refl) (omega arith)
      (omega arith) (omega arith)

-- The player of `quits` on a local server that another client has sent input to.
session_example :
    let s = acts local_server (quintses_main 7 quits).1 (Model.init [], input 9 1 ∷ []) in
    (s.1 ≡ input 9 1 ∷ load_player 7 player ∷ input 7 128 ∷ shutdown 7 ∷ [])
    × All (λ m. sender m ≡ 7) (load_player 7 player ∷ input 7 128 ∷ shutdown 7 ∷ [])
    × (take_one (sent (quintses_main 7 quits).1) ≡ load_player 7 player ∷ [])
    × (is_registered 7 s.0 ≡ true)
unfolding quintses_main Player.mainloop Player.process_events sent acts act Player.init
session_example = session local_server 7 quits (Model.init [], input 9 1 ∷ [])
