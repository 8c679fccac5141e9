-- ===== src/Messages/Server/Wire.antt =====
-- Messages to the server (core/messages/server) over a reliable connection.
use quintses.Common.{ℕ, ◌-◌, ◌^◌, ◌<◌, ◌≡◌, refl, List, [], some, arith, length}
use quintses.Bytes.{to_bytes}
use quintses.Socket.{SocketWrapper}
use quintses.Socket.Reliable.{IsReliable, Sends, Receives, Sends-pure, Receives-pure, Receives-map}
use quintses.Socket.Values.{
  string_bytes, IsText, c_string-IsText, Sends-write_pod, Receives-read_pod, Sends-write_string,
  Receives-read_string,
}
use quintses.Messages.Server.{ServerMsg, shutdown, input, load_player, type, create, read, write}

-- The bytes behind the type of a message.
unfoldable pub payload : ServerMsg → List ℕ
payload (input c st) = to_bytes 2 st
payload (load_player c t) = string_bytes t
payload m = []

-- The messages that a client may send: the state is a `uint16_t`, and a template has no NUL and a
-- length whose buffer fits into `uint32_t`.
abbrev pub IsSendable : ServerMsg → Type 0
IsSendable (shutdown c) = Unit
IsSendable (input c st) = st < 2 ^ 16
IsSendable (load_player c t) = (length t < 2 ^ 32 - 1) × IsText t
IsSendable m = ⊥

-- The message as it stands at the receiver, which is its own sender there.
unfoldable pub from_sender : ℕ → ServerMsg → ServerMsg
from_sender cli (shutdown c) = shutdown cli
from_sender cli (input c st) = input cli st
from_sender cli (load_player c t) = load_player cli t
from_sender cli m = m

pub type-lt : (m : ServerMsg) → type m < 256 ^ 4
unfolding type
type-lt (shutdown c) = omega arith
type-lt m = omega arith

module _ {s : SocketWrapper} (r : IsReliable s) where
  -- Over a reliable connection `write` of a message that a client may send sends exactly its payload.
  pub Sends-write_server : (m : ServerMsg) → IsSendable m → Sends r (write s m) (payload m)
  unfolding write payload
  Sends-write_server (shutdown c) h = Sends-pure r
  Sends-write_server (input c st) h = Sends-write_pod r 2 st
  Sends-write_server (load_player c t) h = Sends-write_string r t (omega arith)
  Sends-write_server m h = absurd h

  -- For a message that may be sent, `create` on its type makes an object of its class, and over a
  -- reliable connection `read` of that object takes exactly the payload and gives the message back,
  -- with the receiver's client as its sender.
  pub create-read_server :
      (garbage cli : ℕ) (m : ServerMsg)
      → IsSendable m
      → (fresh : ServerMsg) × (create garbage (type m) cli ≡ some fresh)
        × Receives r (read s fresh) (payload m) (from_sender cli m)
  unfolding create type read payload from_sender
  create-read_server garbage cli (shutdown c) h =
      (shutdown cli, refl, Receives-pure r (shutdown cli))
  create-read_server garbage cli (input c st) h =
      (input cli garbage, refl, Receives-map r (input cli) (Receives-read_pod r 2 st (omega arith)))
  create-read_server garbage cli (load_player c t) h = (
    load_player cli [],
    refl,
    rw (c_string-IsText t h.1) at (Receives-map r (load_player cli) (Receives-read_string r t h.0)),
  )
  create-read_server garbage cli m h = absurd h
