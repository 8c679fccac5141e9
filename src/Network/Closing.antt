-- ===== src/Network/Closing.antt =====
-- The connections of a server that shuts down: `run` of `LocalServer` tells each `RemoteClient`
-- `serverClosed`, which closes its socket, and the read that is under way then fails.
use quintses.Common.{ℕ, ◌≤◌, ◌≡◌, refl, true, false, List, [], ◌∷◌, ◌++◌}
use quintses.Socket.{SocketWrapper, ok}
use quintses.Messages.Server.{Matrix}
use quintses.Network.RemoteClient.{
  RemoteClient, Call, adds_client, removes_client, posts_delete, pushes, failed, read_msg,
}
use quintses.Serving as Server
use quintses.Serving.{
  WorldFile, Event, start, step, steps, of_client, adds, removes, deleted, has_player,
}
use quintses.Serving.Rounds.{rank}
use quintses.Serving.Faults.{removes_late}

-- The calls of a client of the server, as steps of the server's threads.
unfoldable pub server_calls : ℕ → List Call → List Event
server_calls self [] = []
server_calls self (adds_client ∷ cs) = of_client (adds self) ∷ server_calls self cs
server_calls self (removes_client ∷ cs) = of_client (removes self) ∷ server_calls self cs
server_calls self (pushes msg ∷ cs) = of_client (Server.pushes msg) ∷ server_calls self cs
server_calls self (c ∷ cs) = server_calls self cs

-- In every schedule: once the thread has taken the engine down, a `RemoteClient` whose socket has
-- been closed and that is not marked for deletion, for a client with a player, calls `removeClient`
-- when its read fails; the server then calls the engine that it has deleted, and nothing that comes
-- later undoes it.
pub closed_read_faults :
    (w : WorldFile) {s : SocketWrapper} (garbage self : ℕ) (d : s.Conn) (rc : RemoteClient s)
    (es fs : List Event) (identity : Matrix)
    → rc.marked_for_delete ≡ false
    → rank (steps w es (start identity)).thread ≤ 3
    → has_player self (steps w es (start identity)).server ≡ true
    → (rc' : RemoteClient s) × (out : List Call) × (read_msg garbage self (failed d) rc
        ≡ ok (rc', out))
      × (rc'.marked_for_delete ≡ true)
      × ((steps w (server_calls self out ++ fs) (steps w es (start identity))).fault ≡ true)
unfolding read_msg server_calls steps
closed_read_faults w garbage self d rc es fs identity unmarked late player = (
  record rc { conn = d; marked_for_delete = true },
  removes_client ∷ posts_delete ∷ [],
  rw unmarked refl,
  refl,
  (removes_late w es fs identity self late player).1,
)
