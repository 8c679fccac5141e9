-- ===== src/Messages/Client/Wire.antt =====
-- Messages to a client (core/messages/client) over a reliable connection.
use quintses.Common.{ℕ, ◌-◌, ◌^◌, ◌<◌, ◌≡◌, refl, List, [], ◌++◌, some, arith, length}
use quintses.Bytes.{to_bytes}
use quintses.Socket.{SocketWrapper}
use quintses.Socket.Reliable.{
  IsReliable, Sends, Receives, Sends-write, Sends->>, Receives-read, Receives->>=, Receives-map,
}
use quintses.Socket.Values.{
  string_bytes, IsText, c_string-IsText, Sends-write_pod, Receives-read_pod, Sends-write_string,
  Receives-read_string,
}
use quintses.Messages.Server.{Matrix, Text}
use quintses.Messages.Client.{
  ClientMsg, add_drawable, add_audible, trans_drawable, trans_audible, del_drawable, del_audible,
  type, create, read, write, read_add, read_trans, read_del, write_add, write_trans,
}

-- The bytes behind the type of a message.
unfoldable pub payload : ClientMsg → List ℕ
payload (add_drawable i t) = to_bytes 4 i ++ string_bytes t
payload (add_audible i t) = to_bytes 4 i ++ string_bytes t
payload (trans_drawable i m) = to_bytes 4 i ++ m
payload (trans_audible i m) = to_bytes 4 i ++ m
payload (del_drawable i) = to_bytes 4 i
payload (del_audible i) = to_bytes 4 i

abbrev pub IsTemplate : Text → Type 0
IsTemplate t = (length t < 2 ^ 32 - 1) × IsText t

-- The identifier is a `uint32_t`, a template has no NUL and a length whose buffer fits into
-- `uint32_t`, and a matrix has 64 bytes.
abbrev pub IsSendable : ClientMsg → Type 0
IsSendable (add_drawable i t) = (i < 2 ^ 32) × IsTemplate t
IsSendable (add_audible i t) = (i < 2 ^ 32) × IsTemplate t
IsSendable (trans_drawable i m) = (i < 2 ^ 32) × (length m ≡ 64)
IsSendable (trans_audible i m) = (i < 2 ^ 32) × (length m ≡ 64)
IsSendable (del_drawable i) = i < 2 ^ 32
IsSendable (del_audible i) = i < 2 ^ 32

pub type-lt : (m : ClientMsg) → type m < 256 ^ 4
unfolding type
type-lt (add_drawable i t) = omega arith
type-lt m = omega arith

module _ {s : SocketWrapper} (r : IsReliable s) where
  Sends-add :
      (i : ℕ) (t : Text) → IsTemplate t → Sends r (write_add s i t) (to_bytes 4 i ++ string_bytes t)
  unfolding write_add
  Sends-add i t h = Sends->> r (Sends-write_pod r 4 i) (Sends-write_string r t (omega arith))

  Sends-trans : (i : ℕ) (m : Matrix) → Sends r (write_trans s i m) (to_bytes 4 i ++ m)
  unfolding write_trans
  Sends-trans i m = Sends->> r (Sends-write_pod r 4 i) (Sends-write r m)

  -- Over a reliable connection `write` of a message to a client sends exactly its payload.
  pub Sends-write_client : (m : ClientMsg) → IsSendable m → Sends r (write s m) (payload m)
  unfolding write payload
  Sends-write_client (add_drawable i t) h = Sends-add i t h.1
  Sends-write_client (add_audible i t) h = Sends-add i t h.1
  Sends-write_client (trans_drawable i m) h = Sends-trans i m
  Sends-write_client (trans_audible i m) h = Sends-trans i m
  Sends-write_client (del_drawable i) h = Sends-write_pod r 4 i
  Sends-write_client (del_audible i) h = Sends-write_pod r 4 i

  Receives-add :
      (build : ℕ → Text → ClientMsg) (i : ℕ) (t : Text)
      → i < 2 ^ 32
      → IsTemplate t
      → Receives r (read_add s build) (to_bytes 4 i ++ string_bytes t) (build i t)
  unfolding read_add
  Receives-add build i t h k =
      Receives->>= r _ (Receives-read_pod r 4 i (omega arith))
        (rw (c_string-IsText t k.1) at (Receives-map r (build i) (Receives-read_string r t k.0)))

  Receives-trans :
      (build : ℕ → Matrix → ClientMsg) (i : ℕ) (m : Matrix)
      → i < 2 ^ 32
      → length m ≡ 64
      → Receives r (read_trans s build) (to_bytes 4 i ++ m) (build i m)
  unfolding read_trans
  Receives-trans build i m h k =
      Receives->>= r _ (Receives-read_pod r 4 i (omega arith))
        (Receives-map r (build i) (Receives-read r 64 m k))

  Receives-del :
      (build : ℕ → ClientMsg) (i : ℕ)
      → i < 2 ^ 32
      → Receives r (read_del s build) (to_bytes 4 i) (build i)
  unfolding read_del
  Receives-del build i h = Receives-map r build (Receives-read_pod r 4 i (omega arith))

  -- For a message that may be sent, `create` on its type makes an object of its class, and over a
  -- reliable connection `read` of that object takes exactly the payload and gives the message back.
  pub create-read_client :
      (garbage : Matrix) (m : ClientMsg)
      → IsSendable m
      → (fresh : ClientMsg) × (create garbage (type m) ≡ some fresh)
        × Receives r (read s fresh) (payload m) m
  unfolding create type read payload
  create-read_client garbage (add_drawable i t) h =
      (add_drawable 0 [], refl, Receives-add add_drawable i t h.0 h.1)
  create-read_client garbage (add_audible i t) h =
      (add_audible 0 [], refl, Receives-add add_audible i t h.0 h.1)
  create-read_client garbage (trans_drawable i m) h =
      (trans_drawable 0 garbage, refl, Receives-trans trans_drawable i m h.0 h.1)
  create-read_client garbage (trans_audible i m) h =
      (trans_audible 0 garbage, refl, Receives-trans trans_audible i m h.0 h.1)
  create-read_client garbage (del_drawable i) h =
      (del_drawable 0, refl, Receives-del del_drawable i h)
  create-read_client garbage (del_audible i) h = (del_audible 0, refl, Receives-del del_audible i h)
