-- ===== src/Examples/Serving.antt =====
-- A server without a world file, with a player and a client in the lobby, that is shut down.
use quintses.Common.{◌≤◌, ◌≡◌, refl, true, false, none, List, [], ◌∷◌, ◌++◌, arith, inr}
use quintses.Messages.Server.{shutdown, input, load_player}
use quintses.Common.Map.{lookup, insert, erase, index}
use quintses.World.{load_world}
use quintses.Server as Model
use quintses.Server.{player, add_client, run_tick_callbacks}
use quintses.Server.Closing.{closings}
use quintses.Lifecycle.Returns.{is_finished}
use quintses.Serving.{
  WorldFile, Event, start, steps, of_owner, of_thread, of_client, spurious, pushes, adds, ticks,
  alive,
}
use quintses.Serving.Rounds.{rank}
use quintses.Serving.Returns.{shutdown_returns}
use quintses.Serving.Faults.{engine_alive}
use quintses.Socket.{ok}
use quintses.Network.RemoteClient.{RemoteClient, Call, failed, read_msg}
use quintses.Network.Closing.{server_calls, closed_read_faults}
use quintses.Examples.Wire.{pipe}
use quintses.Serving.Told.{registered_told}
use quintses.Examples.World.{tree, numbers}

abbrev pub no_file : WorldFile
no_file = record { dom = tree; math = numbers; fuel = 9; file = none }

-- The constructor sleeps, the thread starts and wakes it; two clients are added, and one of them loads
-- its player.
abbrev pub before : List Event
before =
    of_owner
    ∷ of_thread 0
    ∷ of_thread 0
    ∷ of_thread 0
    ∷ of_owner
    ∷ of_thread 0
    ∷ of_client (adds 100)
    ∷ of_client (adds 200)
    ∷ of_client (pushes (load_player 100 player))
    ∷ of_thread 0
    ∷ of_owner
    ∷ of_owner
    ∷ of_client (pushes (shutdown 200))
    ∷ []

-- A message comes in late, and is handed out before the `ShutdownMessage`.
abbrev shuts : List Event
shuts =
    of_client (pushes (input 100 1))
    ∷ of_thread 1
    ∷ spurious
    ∷ of_thread 0
    ∷ of_client ticks
    ∷ of_thread 0
    ∷ of_owner
    ∷ of_thread 0
    ∷ of_thread 0
    ∷ of_thread 0
    ∷ []

abbrev pub waits : List Event
waits = of_owner ∷ of_owner ∷ []

shutdown_returns_example :
    let s = steps no_file (shuts ++ waits) (steps no_file before (start [])) in
    (rank s.thread ≡ 0) × (is_finished s.owner ≡ true)
unfolding steps start Model.init load_world Model.handle Model.load_player add_client lookup insert
    erase run_tick_callbacks Model.get_client_id index
shutdown_returns_example =
    shutdown_returns no_file before shuts waits [] (inr (refl, refl)) (omega arith) (omega arith)

engine_alive_example :
    ((steps no_file before (start [])).engine ≡ alive)
    × ((steps no_file before (start [])).fault ≡ false)
unfolding steps start Model.init load_world Model.handle Model.load_player add_client lookup insert
    erase run_tick_callbacks Model.get_client_id index
engine_alive_example = engine_alive no_file before [] refl (omega arith)

abbrev connection : RemoteClient pipe
connection = record { conn = []; next_msg_type = 0; marked_for_delete = false }

closed_read_faults_example :
    (rc : RemoteClient pipe) × (out : List Call) × (read_msg 0 100 (failed []) connection
      ≡ ok (rc, out))
    × (rc.marked_for_delete ≡ true)
    × ((steps no_file
          (server_calls 100 out ++ waits)
          (steps no_file (before ++ shuts) (start []))).fault
        ≡ true)
unfolding steps start Model.init load_world Model.handle Model.load_player add_client lookup insert
    erase run_tick_callbacks Model.get_client_id index
closed_read_faults_example =
    closed_read_faults no_file 0 100 [] connection (before ++ shuts) waits [] refl (omega arith)
      refl

registered_told_example :
    1 ≤ closings 200 (steps no_file (shuts ++ waits) (steps no_file before (start []))).calls
unfolding steps start Model.init load_world Model.handle Model.load_player add_client lookup insert
    erase run_tick_callbacks Model.get_client_id index
registered_told_example =
    registered_told no_file 200 before (shuts ++ waits) [] refl (omega arith)
      (tt, (tt, (tt, (tt, (tt, (tt, (tt, (tt, (tt, (tt, (tt, (tt, tt)))))))))))) refl
