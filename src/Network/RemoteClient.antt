-- ===== src/Network/RemoteClient.antt =====
-- server/remoteclient.cpp and server/remoteclient.hpp: the class `RemoteClient`. Its handlers run one
-- at a time on the thread of the `io_service`; its calls of other objects are effects, in their order.
-- The output on `std::cerr` is left out.
pub mod Removal
use quintses.Common.{ℕ, Bool, true, false, Option, none, some, List, [], ◌∷◌, ◌++◌, if◌then◌else◌}
use quintses.Socket.{
  system_error, Result, ok, err, Fault, Io, SocketWrapper, ◌>>◌, read_pod, write_pod,
}
use quintses.Messages.Server as ServerMessages
use quintses.Messages.Server.{ServerMsg}
use quintses.Messages.Client as ClientMessages
use quintses.Messages.Client.{ClientMsg}

-- `addClient`, `removeClient` and `pushMessage` of the server, the `async_read` of the next type, and
-- the post of `deleteSelf`.
pub data Call : Type 0 where
  adds_client removes_client reads_next posts_delete : Call
  pushes : ServerMsg → Call

module _ (s : SocketWrapper) where
  open s use {Conn}

  pub record RemoteClient : Type 0 where
    pub conn : Conn
    pub next_msg_type : ℕ
    pub marked_for_delete : Bool

  -- What the handler of `async_read` is called with: an error code, or the type that has arrived in
  -- `m_next_msg_type`.
  pub data Arrival : Type 0 where
    failed : Conn → Arrival
    arrived : ℕ → Conn → Arrival

  -- What the `io_service` runs one after another; it ends with the first exception.
  pub data Event : Type 0 where
    writes : ClientMsg → Conn → Event
    reads : ℕ → Arrival → Event

module _ {s : SocketWrapper} where
  open s use {Conn}

  unfoldable pub spinup : RemoteClient s → RemoteClient s × List Call
  spinup c = (c, adds_client ∷ reads_next ∷ [])

  -- The lines with which `writeMsg` and `readMsg` give the connection up.
  abbrev pub give_up : RemoteClient s → RemoteClient s × List Call
  give_up c = (record c { marked_for_delete = true }, removes_client ∷ posts_delete ∷ [])

  -- `writeMsg` behind the calls that write, which catches the `system_error` of a connection and lets any
  -- other exception out; `broken` is the connection as a call leaves it that throws.
  abbrev pub written :
      Conn → RemoteClient s → Result ((Unit {0}) × Conn) → Result (RemoteClient s × List Call)
  written broken c (ok (done, d)) = ok (record c { conn = d }, [])
  written broken c (err (system_error code)) = ok (
      if c.marked_for_delete
      then (record c { conn = broken }, [])
      else give_up (record c { conn = broken }))
  written broken c (err e) = err e

  unfoldable pub write_msg : ClientMsg → Conn → RemoteClient s → Result (RemoteClient s × List Call)
  write_msg msg broken c =
      written broken c
        ((write_pod s 4 (ClientMessages.type msg) >> ClientMessages.write s msg) c.conn)

  -- The message that has been read is pushed; an exception of `read` leaves the handler.
  abbrev pub accept :
      RemoteClient s → Result (ServerMsg × Conn) → Result (RemoteClient s × List Call)
  accept c (ok (msg, d)) = ok (record c { conn = d }, pushes msg ∷ reads_next ∷ [])
  accept c (err e) = err e

  abbrev pub read_created :
      Option ServerMsg → RemoteClient s → Conn → Result (RemoteClient s × List Call)
  read_created none c d = ok (give_up (record c { conn = d }))
  read_created (some msg) c d = accept c (ServerMessages.read s msg d)

  -- `readMsg`; `self` is the address of this client, and `garbage` the memory of a new message.
  unfoldable pub read_msg : ℕ → ℕ → Arrival s → RemoteClient s → Result (RemoteClient s × List Call)
  read_msg garbage self (failed d) c =
      if c.marked_for_delete
      then ok (record c { conn = d }, [])
      else ok (give_up (record c { conn = d }))
  read_msg garbage self (arrived t d) c =
      let read =
        read_created (ServerMessages.create garbage t self) (record c { next_msg_type = t }) d in
      if c.marked_for_delete then ok (record c { conn = d; next_msg_type = t }, []) else read

  unfoldable pub handle : ℕ → Event s → RemoteClient s → Result (RemoteClient s × List Call)
  unfolding write_msg read_msg
  handle self (writes msg broken) c = write_msg msg broken c
  handle self (reads garbage arrival) c = read_msg garbage self arrival c

  abbrev pub continue :
      (RemoteClient s → RemoteClient s × List Call)
      → RemoteClient s
      → Result (RemoteClient s × List Call)
      → RemoteClient s × List Call
  continue rest c (err e) = (c, [])
  continue rest c (ok (d, out)) = let (final, more) = rest d in (final, out ++ more)

  unfoldable pub run : ℕ → List (Event s) → RemoteClient s → RemoteClient s × List Call
  unfolding handle
  run self [] c = (c, [])
  run self (e ∷ es) c = continue (run self es) c (handle self e c)
