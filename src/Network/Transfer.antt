-- ===== src/Network/Transfer.antt =====
-- Messages from a `RemoteServer` to the `RemoteClient` at the other end of its connection.
use mathlib.Core.List.{append_assoc, append-nil}
use quintses.Common.{ℕ, zero, suc, ◌≡◌, refl, sym, ap, ◌∙◌, false, List, [], ◌∷◌, ◌++◌, length, All}
use quintses.Bytes.{to_bytes}
use quintses.Socket.{Result, ok, err, SocketWrapper, read_pod}
use quintses.Socket.Reliable.{IsReliable, Sends->>}
use quintses.Socket.Values.{Sends-write_pod, Receives-read_pod}
use quintses.Messages.Server.{ServerMsg, type}
use quintses.Messages.Server.Wire.{
  payload, IsSendable, from_sender, type-lt, Sends-write_server, create-read_server,
}
use quintses.Network.RemoteClient as Client
use quintses.Network.RemoteClient.{RemoteClient, pushes, reads_next, arrived, read_msg}
use quintses.Network.RemoteServer as Server
use quintses.Network.RemoteServer.{RemoteServer, write_msg}

-- What `writeMsg` sends for a message.
unfoldable pub frame : ServerMsg → List ℕ
frame msg = to_bytes 4 (type msg) ++ payload msg

unfoldable pub frames : List ServerMsg → List ℕ
frames [] = []
frames (msg ∷ msgs) = frame msg ++ frames msgs

-- The pushes of a client for messages that arrive, each followed by the next `async_read`.
unfoldable pub received : ℕ → List ServerMsg → List Client.Call
received self [] = []
received self (msg ∷ msgs) = pushes (from_sender self msg) ∷ reads_next ∷ received self msgs

-- One handler after another, with the calls of both, up to the first exception.
abbrev chain :
    {A K : Type 0} → (A → Result (A × List K)) → Result (A × List K) → Result (A × List K)
chain rest (ok (a, out)) = elim (rest a) [ ok r ↦ ok (r.0, out ++ r.1) | err e ↦ err e ]
chain rest (err e) = err e

module _ {s : SocketWrapper} where
  -- An `async_read` of four bytes that succeeds, and its handler.
  abbrev arrive :
      ℕ → ℕ → RemoteClient s → Result (ℕ × s.Conn) → Result (RemoteClient s × List Client.Call)
  arrive garbage self c (ok (t, d)) = read_msg garbage self (arrived t d) c
  arrive garbage self c (err e) = err e

  unfoldable pub receive : ℕ → ℕ → RemoteClient s → Result (RemoteClient s × List Client.Call)
  receive garbage self c = arrive garbage self c (read_pod s 4 c.conn)

  unfoldable pub receive_all :
      ℕ → ℕ → ℕ → RemoteClient s → Result (RemoteClient s × List Client.Call)
  receive_all garbage self zero c = ok (c, [])
  receive_all garbage self (suc n) c = chain (receive_all garbage self n) (receive garbage self c)

  -- `writeMsg` of one message after another.
  unfoldable pub write_all :
      List ServerMsg → s.Conn → RemoteServer s → Result (RemoteServer s × List Server.Call)
  write_all [] broken r = ok (r, [])
  write_all (msg ∷ msgs) broken r = chain (write_all msgs broken) (write_msg msg broken r)

module _ {s : SocketWrapper} (r : IsReliable s) where
  open s use {Conn}
  open r use {pending, IsOpen}

  write_msg-frame :
      (msg : ServerMsg) (broken : Conn) (srv : RemoteServer s)
      → IsSendable msg
      → IsOpen srv.conn
      → (d : Conn) × (write_msg msg broken srv ≡ ok (record srv { conn = d }, []))
        × (pending d ≡ pending srv.conn ++ frame msg)
        × IsOpen d
  unfolding write_msg frame
  write_msg-frame msg broken srv h o =
      let (d, e, p, o') =
        (Sends->> r (Sends-write_pod r 4 (type msg)) (Sends-write_server r msg h)).run srv.conn o in
      (d, rw (e, write_msg) refl, p, o')

  receive-frame :
      (garbage self : ℕ) (msg : ServerMsg) (rest : List ℕ) (c : RemoteClient s)
      → IsSendable msg
      → c.marked_for_delete ≡ false
      → IsOpen c.conn
      → pending c.conn ≡ frame msg ++ rest
      → (d : Conn) × (receive garbage self c
          ≡ ok (
            record c { conn = d; next_msg_type = type msg },
            pushes (from_sender self msg) ∷ reads_next ∷ [],
          ))
        × (pending d ≡ rest)
        × IsOpen d
  unfolding receive frame read_msg
  receive-frame garbage self msg rest c h alive o p =
      let (fresh, made, fills) = create-read_server r garbage self msg h in
      let (d, e, q, o') =
        (Receives-read_pod r 4 (type msg) (type-lt msg)).run (payload msg ++ rest) c.conn o
          (p ∙ append_assoc (to_bytes 4 (type msg)) (payload msg) rest) in
      let (d', e', q', o'') = fills.run rest d o' q in
      (d', rw (e, receive, alive, made, e') refl, q', o'')

  write_all-frames :
      (msgs : List ServerMsg) (broken : Conn) (srv : RemoteServer s)
      → All IsSendable msgs
      → IsOpen srv.conn
      → (d : Conn) × (write_all msgs broken srv ≡ ok (record srv { conn = d }, []))
        × (pending d ≡ pending srv.conn ++ frames msgs)
        × IsOpen d
  unfolding write_all frames
  write_all-frames [] broken srv h o = (srv.conn, refl, sym (append-nil (pending srv.conn)), o)
  write_all-frames (msg ∷ msgs) broken srv h o =
      let (d, e, p, o') = write_msg-frame msg broken srv h.0 o in
      let (d', e', p', o'') = write_all-frames msgs broken (record srv { conn = d }) h.1 o' in
      (
        d',
        rw (e, e') refl,
        p'
            ∙ ap (λ l. l ++ frames msgs) p
            ∙ append_assoc (pending srv.conn) (frame msg) (frames msgs),
        o'',
      )

  receive_all-frames :
      (garbage self : ℕ) (msgs : List ServerMsg) (rest : List ℕ) (c : RemoteClient s)
      → All IsSendable msgs
      → c.marked_for_delete ≡ false
      → IsOpen c.conn
      → pending c.conn ≡ frames msgs ++ rest
      → (c' : RemoteClient s) × (receive_all garbage self (length msgs) c
          ≡ ok (c', received self msgs))
        × (pending c'.conn ≡ rest)
        × (c'.marked_for_delete ≡ false)
  unfolding receive_all frames received
  receive_all-frames garbage self [] rest c h alive o p = (c, refl, p, alive)
  receive_all-frames garbage self (msg ∷ msgs) rest c h alive o p =
      let (d, e, q, o') =
        receive-frame garbage self msg (frames msgs ++ rest) c h.0 alive o
          (p ∙ append_assoc (frame msg) (frames msgs) rest) in
      let (c', e', q', alive') =
        receive_all-frames garbage self msgs rest (record c { conn = d; next_msg_type = type msg })
          h.1 alive o' q in
      (c', rw (e, receive_all, e') refl, q', alive')

  -- On a connection that keeps the laws of a reliable one: if a `RemoteServer` writes messages that
  -- the wire can carry (none is internal, the input states fit 16 bits, and no template contains a
  -- NUL byte or has a length of 2 ^ 32 - 1 or more) to an open connection on which nothing is under
  -- way, then all the writes succeed; and a `RemoteClient` at the other end that is not marked for
  -- deletion pushes every one of them to its server, once and in order, with itself as the sender,
  -- and leaves nothing on the connection.
  pub write_all-receive_all :
      (garbage self : ℕ) (msgs : List ServerMsg) (broken : Conn) (srv : RemoteServer s)
      (c : RemoteClient s)
      → All IsSendable msgs
      → c.marked_for_delete ≡ false
      → IsOpen srv.conn
      → pending srv.conn ≡ []
      → (d : Conn) × (c' : RemoteClient s) × (write_all msgs broken srv
          ≡ ok (record srv { conn = d }, []))
        × (receive_all garbage self (length msgs) (record c { conn = d })
            ≡ ok (c', received self msgs))
        × (pending c'.conn ≡ [])
        × (c'.marked_for_delete ≡ false)
  write_all-receive_all garbage self msgs broken srv c h alive o p =
      let (d, e, q, o') = write_all-frames msgs broken srv h o in
      let (c', e', q', alive') =
        receive_all-frames garbage self msgs [] (record c { conn = d }) h alive o'
          (q ∙ ap (λ l. l ++ frames msgs) p ∙ sym (append-nil (frames msgs))) in
      (d, c', e, e', q', alive')
