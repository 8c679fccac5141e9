-- ===== src/Client.antt =====
-- client/localclient.cpp and client/localclient_x11.cpp: the class `LocalClient`, its loop and its keys.
-- Which events X11 reports is an argument; its calls of other objects are effects, in their order.
pub mod Keys
pub mod Loop
pub mod Platform
use quintses.Common.{
  ℕ, ◌+◌, ◌-◌, ◌*◌, ◌/◌, ◌%◌, ◌^◌, Bool, true, false, List, [], ◌∷◌, ◌++◌, ◌==◌, if◌then◌else◌,
}
use quintses.Messages.Server.{ServerMsg, Text, shutdown, input, load_player}
use quintses.Messages.Client.{ClientMsg, add_drawable, trans_drawable, del_drawable}
use quintses.Server.{player, strafe_left, strafe_right}

-- `ServerInputMsg::Shoot`
abbrev pub shoot : ℕ
shoot = 2 ^ 7

-- The keysyms that `platformEvents` tells apart.
pub data Keysym : Type 0 where
  xk_left xk_right space other_key : Keysym

-- The events that `platformEvents` tells apart; `delete_window` is the client message of the window
-- manager.
pub data XEvent : Type 0 where
  delete_window other_event : XEvent
  key_release key_press : Keysym → XEvent

-- `m_finished` and the variable `keymap`; `self` is the address of the client.
pub record LocalClient : Type 0 where
  pub self : ℕ
  pub finished : Bool
  pub keymap : ℕ

-- Whether the bit `key`, a power of two, is set.
unfoldable pub has_key : ℕ → ℕ → Bool
has_key key keymap = (keymap / key) % 2 == 1

-- `adjustKeysym`: `keymap |= key` or `keymap &= ~key`, for a power of two.
unfoldable pub adjust_keysym : Bool → ℕ → ℕ → ℕ
unfolding has_key
adjust_keysym press key keymap =
    if press
    then if has_key key keymap then keymap else keymap + key
    else if has_key key keymap
    then keymap - key
    else keymap

-- The `switch` over the keysym: the new keymap, and whether the keys have changed.
unfoldable pub process_key : Bool → Keysym → ℕ → ℕ × Bool
unfolding adjust_keysym
process_key press xk_left keymap = (adjust_keysym press strafe_left keymap, true)
process_key press xk_right keymap = (adjust_keysym press strafe_right keymap, true)
process_key press space keymap = (adjust_keysym press shoot keymap, true)
process_key press other_key keymap = (keymap, false)

-- The loop over the events, from `keys_changed` on.
unfoldable pub process_events : List XEvent → Bool → LocalClient → LocalClient × Bool
unfolding process_key
process_events [] changed c = (c, changed)
process_events (delete_window ∷ es) changed c =
    process_events es changed (record c { finished = true })
process_events (other_event ∷ es) changed c = process_events es changed c
process_events (key_release k ∷ es) changed c =
    let now = process_events es true (record c { keymap = (process_key false k c.keymap).0 }) in
    let rest = process_events es changed (record c { keymap = (process_key false k c.keymap).0 }) in
    if (process_key false k c.keymap).1 then now else rest
process_events (key_press k ∷ es) changed c =
    let now = process_events es true (record c { keymap = (process_key true k c.keymap).0 }) in
    let rest = process_events es changed (record c { keymap = (process_key true k c.keymap).0 }) in
    if (process_key true k c.keymap).1 then now else rest

-- `platformEvents`: the message to the server, if there is one.
unfoldable pub platform_events : List XEvent → LocalClient → LocalClient × List ServerMsg
platform_events es c =
    let (after, changed) = process_events es false c in
    (after, (if changed then input c.self after.keymap ∷ [] else []))

-- The calls of the renderer, and those of the server.
pub data Effect : Type 0 where
  renders : ClientMsg → Effect
  draws swaps waits : Effect
  adds_client : ℕ → Effect
  sends : ServerMsg → Effect

-- The constructor `LocalClient`.
unfoldable pub init : ℕ → LocalClient × List Effect
init self = (
  record { self = self; finished = false; keymap = 0 },
  adds_client self ∷ sends (load_player self player) ∷ [],
)

-- The `switch` of `mainloop` over a message.
unfoldable pub dispatch : List ClientMsg → List Effect
dispatch [] = []
dispatch (add_drawable id t ∷ msgs) = renders (add_drawable id t) ∷ dispatch msgs
dispatch (trans_drawable id m ∷ msgs) = renders (trans_drawable id m) ∷ dispatch msgs
dispatch (del_drawable id ∷ msgs) = renders (del_drawable id) ∷ dispatch msgs
dispatch (msg ∷ msgs) = dispatch msgs

abbrev pub sends_all : List ServerMsg → List Effect
sends_all [] = []
sends_all (msg ∷ msgs) = sends msg ∷ sends_all msgs

-- One round of `mainloop`: the messages that `try_pop` returns, and the events that X11 reports.
unfoldable pub frame : List ClientMsg → List XEvent → LocalClient → LocalClient × List Effect
unfolding dispatch platform_events
frame msgs es c =
    let (after, out) = platform_events es c in
    (after, dispatch msgs ++ (sends_all out ++ draws ∷ swaps ∷ []))

-- `mainloop` behind its loop.
unfoldable pub leave : Bool → LocalClient → List Effect
leave is_local c = (if is_local then sends (shutdown c.self) ∷ [] else []) ++ waits ∷ []

-- What a round of `mainloop` finds: the messages, the events, and whether another thread calls
-- `serverClosed` before the next test of `m_finished`.
pub record Round : Type 0 where
  pub messages : List ClientMsg
  pub events : List XEvent
  pub closed : Bool

-- `serverClosed`
unfoldable pub server_closed : LocalClient → LocalClient
server_closed c = record c { finished = true }

-- `mainloop` over its rounds: whether it has returned, and its effects.
unfoldable pub mainloop : Bool → List Round → LocalClient → Bool × LocalClient × List Effect
unfolding frame leave server_closed
mainloop is_local [] c = if c.finished then (true, c, leave is_local c) else (false, c, [])
mainloop is_local (r ∷ rounds) c =
    let (after, out) = frame r.messages r.events c in
    let (ended, final, more) =
      mainloop is_local rounds (if r.closed then server_closed after else after) in
    if c.finished then (true, c, leave is_local c) else (ended, final, out ++ more)
