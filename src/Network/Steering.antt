-- ===== src/Network/Steering.antt =====
-- From the keys of a client, over its connection and the server, to the character of its player.
use quintses.Common.{
  ℕ, ◌^◌, ◌<◌, ◌≡◌, refl, ◌∙◌, Bool, true, false, some, List, [], ◌∷◌, arith, ==-refl,
}
use quintses.Common.Map.{lookup, index-some}
use quintses.Socket.{ok, SocketWrapper}
use quintses.Socket.Reliable.{IsReliable}
use quintses.Messages.Server.{input}
use quintses.Messages.Server.Wire.{from_sender}
use quintses.Server.{LocalServer, to_physics, handle, get_client_id}
use quintses.Physics.{BtPhysics, parse_message, set_input_state_callback}
use quintses.Physics.Run.Round.{state_of, callback-state_of}
use quintses.Client.{XEvent, LocalClient, process_events, process_key, platform_events, has_key}
use quintses.Client as Keyboard
use quintses.Client.Keys.{GameKey, bit, held, platform_events-held}
use quintses.Network.RemoteClient.{RemoteClient, pushes, reads_next}
use quintses.Network.RemoteServer.{RemoteServer}
use quintses.Network.Transfer.{write_all, receive_all, received, write_all-receive_all}

process_key-lt :
    (press : Bool) (j : Keyboard.Keysym) (m : ℕ) → m < 2 ^ 8 → (process_key press j m).0 < 2 ^ 8
unfolding process_key Keyboard.adjust_keysym has_key
process_key-lt press Keyboard.other_key m h = h
process_key-lt press Keyboard.xk_left m h = ground arith
process_key-lt press Keyboard.xk_right m h = ground arith
process_key-lt press Keyboard.space m h = ground arith

process_events-lt :
    (es : List XEvent) (changed : Bool) (c : LocalClient)
    → c.keymap < 2 ^ 8
    → (process_events es changed c).0.keymap < 2 ^ 8
unfolding process_events
process_events-lt [] changed c h = h
process_events-lt (Keyboard.delete_window ∷ es) changed c h =
    process_events-lt es changed (record c { finished = true }) h
process_events-lt (Keyboard.other_event ∷ es) changed c h = process_events-lt es changed c h
process_events-lt (Keyboard.key_press j ∷ es) changed c h =
    let next : LocalClient = record c { keymap = (process_key true j c.keymap).0 } in
    ground (
      arith,
      process_events-lt es true next (process_key-lt true j c.keymap h),
      process_events-lt es changed next (process_key-lt true j c.keymap h),
    )
process_events-lt (Keyboard.key_release j ∷ es) changed c h =
    let next : LocalClient = record c { keymap = (process_key false j c.keymap).0 } in
    ground (
      arith,
      process_events-lt es true next (process_key-lt false j c.keymap h),
      process_events-lt es changed next (process_key-lt false j c.keymap h),
    )

-- The input of a client with a character is that character's next input state.
input-state_of :
    (c id old st : ℕ) (s : LocalServer) (p : BtPhysics)
    → lookup c s.clients ≡ some id
    → state_of id p.characters ≡ some old
    → (p' : BtPhysics) × (parse_message (input c st) s p ≡ ok (s, p'))
      × (state_of id p'.characters ≡ some st)
unfolding parse_message get_client_id
input-state_of c id old st s p found there = (
  set_input_state_callback id st p,
  rw (index-some c id s.clients found) refl,
  callback-state_of id st id p ∙ rw (there, ==-refl id) refl,
)

-- Over a reliable connection: when the events of a client have changed its keys, its one message
-- gets through to the server, which hands it to the engine, and there the character of the player
-- of that connection gets the keymap as its input state, in which the bit of each key is set if the
-- last press or release of it was a press, or, with neither, if it was set before. The connection
-- is open, with nothing under way, its client is not marked for deletion and has a player with a
-- character, and the keymap fits into 8 bits before.
pub keys_steer :
    {s : SocketWrapper} (r : IsReliable s) (k : GameKey) (es : List XEvent) (local : LocalClient)
    (garbage self id old : ℕ) (broken : s.Conn) (srv : RemoteServer s) (c : RemoteClient s)
    (server : LocalServer) (p : BtPhysics)
    → local.keymap < 2 ^ 8
    → (process_events es false local).1 ≡ true
    → c.marked_for_delete ≡ false
    → r.IsOpen srv.conn
    → r.pending srv.conn ≡ []
    → lookup self server.clients ≡ some id
    → state_of id p.characters ≡ some old
    → (keymap : ℕ) × (d : s.Conn) × (c' : RemoteClient s) × (p' : BtPhysics) × (write_all
          (platform_events es local).1
          broken
          srv
        ≡ ok (record srv { conn = d }, []))
      × (receive_all garbage self 1 (record c { conn = d })
          ≡ ok (c', pushes (input self keymap) ∷ reads_next ∷ []))
      × (handle (input self keymap) server ≡ (server, to_physics (input self keymap) ∷ []))
      × (parse_message (input self keymap) server p ≡ ok (server, p'))
      × (state_of id p'.characters ≡ some keymap)
      × (has_key (bit k) keymap ≡ held k es (has_key (bit k) local.keymap))
unfolding platform_events received handle from_sender
keys_steer r k es local garbage self id old broken srv c server p small changed alive open_ idle
      player there =
    let keymap = (process_events es false local).0.keymap in
    let fits : keymap < 2 ^ 8 = process_events-lt es false local small in
    let (d, c', sent, got, empty, living) =
      write_all-receive_all r garbage self (input local.self keymap ∷ []) broken srv c
        (omega arith, tt) alive open_ idle in
    let (p', parsed, steers) = input-state_of self id old keymap server p player there in
    (
      keymap,
      d,
      c',
      p',
      rw changed sent,
      got,
      refl,
      parsed,
      steers,
      (platform_events-held k es local).0,
    )
