-- ===== src/Network/Contract.antt =====
-- core/serveriface.hpp: what a client relies on of a server, as a record of operations and laws; and that
-- `LocalServer` and `RemoteServer` are such servers.
use quintses.Common.{ℕ, ◌≡◌, ◌≢◌, refl, Bool, true, false, List, [], ◌∷◌, ◌++◌, arith, ◌==◌}
use quintses.Common.Map.{index, has-insert, has-erase, lookup-index}
use quintses.Socket.{SocketWrapper}
use quintses.Messages.Server.{ServerMsg}
use quintses.Server as Local
use quintses.Server.{LocalServer}
use quintses.Server.Registered.{is_registered}
use quintses.Network.RemoteServer as Remote
use quintses.Network.RemoteServer.{RemoteServer, opens}

-- `serves` says whether a client receives game updates, and `posted` are the messages in the queue of the
-- server, or on their way to it, in the order of the calls that pushed them. A client is not null.
pub record ServerIface : Type 1 where
  pub Server : Type 0
  pub serves : ℕ → Server → Bool
  pub posted : Server → List ServerMsg
  pub is_local : Bool
  pub add_client : ℕ → Server → Server
  pub remove_client : ℕ → Server → Server
  pub push_message : ServerMsg → Server → Server
  pub adds : (c : ℕ) (s : Server) → serves c (add_client c s) ≡ true
  pub adds_posted : (c : ℕ) (s : Server) → posted (add_client c s) ≡ posted s
  pub removes : (c : ℕ) (s : Server) → c ≢ 0 → serves c (remove_client c s) ≡ false
  pub keeps : (c d : ℕ) (s : Server) → d ≢ 0 → c ≢ d → serves d (remove_client c s) ≡ serves d s
  pub pushes : (m : ServerMsg) (s : Server) → posted (push_message m s) ≡ posted s ++ m ∷ []
  pub pushes_serves :
      (m : ServerMsg) (c : ℕ) (s : Server) → serves c (push_message m s) ≡ serves c s

-- A server with the messages that are on their way to it.
abbrev pub Posting : Type 0 → Type 0
Posting S = S × List ServerMsg

pub local_adds : (c : ℕ) (s : LocalServer) → is_registered c (Local.add_client c s).0 ≡ true
unfolding Local.add_client
local_adds c s = ground (arith, has-insert c tt s.lobby_clients c)

pub local_removes : (c : ℕ) (s : LocalServer) → is_registered c (Local.remove_client c s).0 ≡ false
unfolding Local.remove_client
local_removes c s =
    ground (arith, has-erase c (index c s.clients).1 c, has-erase c s.lobby_clients c)

pub local_keeps :
    (c d : ℕ) (s : LocalServer)
    → c ≢ d
    → is_registered d (Local.remove_client c s).0 ≡ is_registered d s
unfolding Local.remove_client
local_keeps c d s ne = ground (
  arith,
  ne,
  has-erase c (index c s.clients).1 d,
  lookup-index c d s.clients,
  has-erase c s.lobby_clients d,
)

abbrev pub local_server : ServerIface
local_server = record {
  Server = Posting LocalServer;
  serves = λ c s. is_registered c s.0;
  posted = λ s. s.1;
  is_local = Local.is_local;
  add_client = λ c s. ((Local.add_client c s.0).0, s.1);
  remove_client = λ c s. ((Local.remove_client c s.0).0, s.1);
  push_message = λ m s. (s.0, s.1 ++ m ∷ []);
  adds = λ c s. local_adds c s.0;
  adds_posted = λ c s. refl;
  removes = λ c s h. local_removes c s.0;
  keeps = λ c d s h ne. local_keeps c d s.0 ne;
  pushes = λ m s. refl;
  pushes_serves = λ m c s. refl;
}

module _ {w : SocketWrapper} where
  pub remote_adds :
      (c : ℕ) (r : RemoteServer w) → ((Remote.add_client opens c r).0.client == c) ≡ true
  unfolding Remote.add_client
  remote_adds c r = ground arith

  pub remote_removes :
      (c : ℕ) (r : RemoteServer w) → c ≢ 0 → ((Remote.remove_client c r).client == c) ≡ false
  unfolding Remote.remove_client
  remote_removes c r h = ground (arith, h)

  pub remote_keeps :
      (c d : ℕ) (r : RemoteServer w)
      → d ≢ 0
      → c ≢ d
      → ((Remote.remove_client c r).client == d) ≡ (r.client == d)
  unfolding Remote.remove_client
  remote_keeps c d r h ne = ground (arith, h, ne)

-- A remote server whose connection opens.
abbrev pub remote_server : SocketWrapper → ServerIface
remote_server w = record {
  Server = Posting (RemoteServer w);
  serves = λ c s. s.0.client == c;
  posted = λ s. s.1;
  is_local = Remote.is_local;
  add_client = λ c s. ((Remote.add_client opens c s.0).0, s.1);
  remove_client = λ c s. (Remote.remove_client c s.0, s.1);
  push_message = λ m s. (s.0, s.1 ++ m ∷ []);
  adds = λ c s. remote_adds c s.0;
  adds_posted = λ c s. refl;
  removes = λ c s h. remote_removes c s.0 h;
  keeps = λ c d s h ne. remote_keeps c d s.0 h ne;
  pushes = λ m s. refl;
  pushes_serves = λ m c s. refl;
}
