-- ===== src/Network/RemoteServer.antt =====
-- client/remoteserver.cpp and client/remoteserver.hpp: the handlers of the class `RemoteServer`, which
-- run one at a time on the thread of its `io_service`. The output on `std::cerr` is left out.
use quintses.Common.{Bool, false, ℕ, Option, none, some, List, [], ◌∷◌, ◌++◌, ◌==◌, if◌then◌else◌}
use quintses.Socket.{system_error, Fault, Result, ok, err, SocketWrapper, ◌>>◌, write_pod}
use quintses.Messages.Server as ServerMessages
use quintses.Messages.Server.{ServerMsg, Matrix}
use quintses.Messages.Client as ClientMessages
use quintses.Messages.Client.{ClientMsg}

-- `pushMessage` and `serverClosed` of a client, the `async_read` of the next type, and `stop` of the
-- `io_service`.
pub data Call : Type 0 where
  pushes : ℕ → ClientMsg → Call
  closes : ℕ → Call
  reads_next stops : Call

-- How `addClient` fares with the socket: `resolve` or `connect` throws, or the socket is not open behind
-- them, or it is.
pub data Connecting : Type 0 where
  cannot_open : Fault → Connecting
  stays_closed opens : Connecting

-- `isLocal`
abbrev pub is_local : Bool
is_local = false

module _ (s : SocketWrapper) where
  open s use {Conn}

  -- `m_client` is 0 where no client is there.
  pub record RemoteServer : Type 0 where
    pub client : ℕ
    pub conn : Conn
    pub next_msg_type : ℕ

  -- What the handler of `async_read` is called with.
  pub data Arrival : Type 0 where
    failed : Conn → Arrival
    arrived : ℕ → Conn → Arrival

module _ {s : SocketWrapper} where
  open s use {Conn}

  -- `addClient`, with the start of the thread left to Network/Startup.
  unfoldable pub add_client : Connecting → ℕ → RemoteServer s → RemoteServer s × Result (List Call)
  add_client (cannot_open e) cli r = (record r { client = cli }, err e)
  add_client stays_closed cli r = (record r { client = cli }, ok [])
  add_client opens cli r = (record r { client = cli }, ok (reads_next ∷ []))

  unfoldable pub remove_client : ℕ → RemoteServer s → RemoteServer s
  remove_client cli r = if cli == r.client then record r { client = 0 } else r

  -- What `run` does when `m_service.run` has returned.
  unfoldable pub finish : RemoteServer s → List Call
  finish r = if r.client == 0 then [] else closes r.client ∷ []

  -- `writeMsg` behind the calls that write, which catches the `system_error` of a connection and lets any
  -- other exception out; `broken` is the connection as a call leaves it that throws.
  abbrev pub written :
      Conn → RemoteServer s → Result ((Unit {0}) × Conn) → Result (RemoteServer s × List Call)
  written broken r (ok (done, d)) = ok (record r { conn = d }, [])
  written broken r (err (system_error code)) = ok (record r { conn = broken }, stops ∷ [])
  written broken r (err e) = err e

  unfoldable pub write_msg : ServerMsg → Conn → RemoteServer s → Result (RemoteServer s × List Call)
  write_msg msg broken r =
      written broken r
        ((write_pod s 4 (ServerMessages.type msg) >> ServerMessages.write s msg) r.conn)

  abbrev pub accept :
      RemoteServer s → Result (ClientMsg × Conn) → Result (RemoteServer s × List Call)
  accept r (ok (msg, d)) = ok (
    record r { conn = d },
    (if r.client == 0 then [] else pushes r.client msg ∷ []) ++ reads_next ∷ [],
  )
  accept r (err e) = err e

  abbrev pub read_created :
      Option ClientMsg → RemoteServer s → Conn → Result (RemoteServer s × List Call)
  read_created none r d = ok (record r { conn = d }, stops ∷ [])
  read_created (some msg) r d = accept r (ClientMessages.read s msg d)

  -- `readMsg`; `garbage` is the memory of a new message.
  unfoldable pub read_msg :
      Matrix → Arrival s → RemoteServer s → Result (RemoteServer s × List Call)
  read_msg garbage (failed d) r = ok (record r { conn = d }, stops ∷ [])
  read_msg garbage (arrived t d) r =
      read_created (ClientMessages.create garbage t) (record r { next_msg_type = t }) d
