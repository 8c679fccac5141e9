-- ===== src/Network/Updates.antt =====
-- Messages from a `RemoteClient` to the `RemoteServer` at the other end of its connection.
use mathlib.Core.List.{append-nil}
use quintses.Common.{◌≡◌, refl, sym, ap, ◌∙◌, [], ◌∷◌, ◌++◌, ◌==◌, if◌then◌else◌}
use quintses.Bytes.{to_bytes}
use quintses.Socket.{ok, SocketWrapper, read_pod}
use quintses.Socket.Reliable.{IsReliable, Sends->>}
use quintses.Socket.Values.{Sends-write_pod, Receives-read_pod}
use quintses.Messages.Server.{Matrix}
use quintses.Messages.Client.{ClientMsg, type}
use quintses.Messages.Client.Wire.{
  payload, IsSendable, type-lt, Sends-write_client, create-read_client,
}
use quintses.Network.RemoteClient.{RemoteClient, write_msg}
use quintses.Network.RemoteServer.{RemoteServer, pushes, reads_next, arrived, read_msg}

module _ {s : SocketWrapper} (r : IsReliable s) where
  open s use {Conn}
  open r use {pending, IsOpen}

  -- A message that the server's side writes to an open connection on which nothing is under way, with the
  -- identifier and the template or matrix of a message that may be sent, arrives whole: the four bytes
  -- of its type are read first, and then the other side pushes it to the client that it has, or drops
  -- it where it has none, and reads on.
  pub write_msg-read_msg :
      (garbage : Matrix) (msg : ClientMsg) (broken : Conn) (c : RemoteClient s)
      (srv : RemoteServer s)
      → IsSendable msg
      → IsOpen c.conn
      → pending c.conn ≡ []
      → (sent read : Conn) × (final : Conn) × (write_msg msg broken c
          ≡ ok (record c { conn = sent }, []))
        × (read_pod s 4 sent ≡ ok (type msg, read))
        × (read_msg garbage (arrived (type msg) read) srv
            ≡ ok (
              record srv { conn = final; next_msg_type = type msg },
              (if srv.client == 0 then [] else pushes srv.client msg ∷ []) ++ reads_next ∷ [],
            ))
        × (pending final ≡ [])
  unfolding write_msg read_msg
  write_msg-read_msg garbage msg broken c srv h o p =
      let (sent, e, q, o') =
        (Sends->> r (Sends-write_pod r 4 (type msg)) (Sends-write_client r msg h)).run c.conn o in
      let all : pending sent ≡ to_bytes 4 (type msg) ++ (payload msg ++ []) =
        q
        ∙ ap (λ l. l ++ (to_bytes 4 (type msg) ++ payload msg)) p
        ∙ ap (λ l. to_bytes 4 (type msg) ++ l) (sym (append-nil (payload msg))) in
      let (read, e', q', o'') =
        (Receives-read_pod r 4 (type msg) (type-lt msg)).run (payload msg ++ []) sent o' all in
      let (fresh, made, fills) = create-read_client r garbage msg h in
      let (final, e'', q'', _) = fills.run [] read o'' q' in
      (sent, read, final, rw (e, write_msg) refl, e', rw (made, e'') refl, q'')
