-- ===== src/Programs/Remote.antt =====
-- qntcli.cpp: the player on a server elsewhere, as the steps of the main function, which is the client's,
-- and of the thread of the connection.
pub mod Turns
pub mod Ending
pub mod Calls
use quintses.Common.{ℕ, Bool, true, false, List, [], ◌∷◌, ◌++◌, if◌then◌else◌}
use quintses.Messages.Client.{ClientMsg}
use quintses.Client.{LocalClient, Effect, XEvent, init, frame, leave, server_closed}
use quintses.Network.RemoteServer as RemoteServer
use quintses.Network.Startup as Connection
use quintses.Network.Startup.{
  Adder, Runner, Startup, Move, connected, reading, closing, of_adder, of_runner, spurious, fails,
  throws, launched, is_aborted,
}

-- `calls` are the calls of the client so far.
pub record Qntcli : Type 0 where
  pub connection : Startup
  pub client : LocalClient
  pub calls : List Effect

-- A step of the main function, with the messages and the events of its round if it is in `mainloop`; and
-- the moves of the rest.
pub data Turn : Type 0 where
  of_player : List ClientMsg → List XEvent → Turn
  of_thread wakes handler_fails handler_throws : Turn

-- The constructor of the client, in which `addClient` starts the thread.
unfoldable pub qntcli_start : ℕ → Qntcli
unfolding init
qntcli_start self = record { connection = launched; client = (init self).0; calls = [] }

-- The move of the connection, if the step is one.
abbrev pub moves : Move → Qntcli → Qntcli
moves e q = record q { connection = Connection.step e q.connection }

-- The main function: in the constructor of the client until `addClient` has returned; in `mainloop`,
-- which goes round until `m_finished`; and in `waitForTermination`.
unfoldable pub player_step : Adder → List ClientMsg → List XEvent → Qntcli → Qntcli
unfolding init frame leave
player_step connected msgs es q = record (moves of_adder q) {
  calls = q.calls ++ (init q.client.self).1;
}
player_step reading msgs es q =
    if q.client.finished
    then record (moves of_adder q) { calls = q.calls ++ leave RemoteServer.is_local q.client }
    else record q {
      client = (frame msgs es q.client).0;
      calls = q.calls ++ (frame msgs es q.client).1;
    }
player_step a msgs es q = moves of_adder q

-- `run`, which calls `serverClosed` of the client.
unfoldable pub thread_step : Runner → Qntcli → Qntcli
unfolding server_closed
thread_step closing q = record (moves of_runner q) { client = server_closed q.client }
thread_step r q = moves of_runner q

unfoldable pub turn : Turn → Qntcli → Qntcli
unfolding player_step thread_step
turn (of_player msgs es) q =
    if is_aborted q.connection.runner then q else player_step q.connection.adder msgs es q
turn of_thread q = thread_step q.connection.runner q
turn wakes q = moves spurious q
turn handler_fails q = moves fails q
turn handler_throws q = moves throws q

unfoldable pub turns : List Turn → Qntcli → Qntcli
unfolding turn
turns [] q = q
turns (t ∷ ts) q = turns ts (turn t q)
