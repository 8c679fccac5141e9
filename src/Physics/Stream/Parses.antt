-- ===== src/Physics/Stream/Parses.antt =====
-- `parseMessage` on the next message of a sound stream.
use quintses.Common.{ℕ, ◌≡◌, ◌≢◌, refl, none, List, ◌∷◌, arith, Option-cases, ◌⊎◌, inl, inr}
use quintses.Common.Map.{has, lookup, erase, lookup-assign, has-erase}
use quintses.Socket.{ok}
use quintses.Messages.Server.{
  ServerMsg, Matrix, Text, shutdown, input, load_player, add_phys, add_char, del_phys, del_char,
  force_state,
}
use quintses.Server.{LocalServer, get_client_id}
use quintses.Physics.{
  BtPhysics, remove, set_input_state_callback, add_object, add_character, del_character,
  parse_message,
}
use quintses.Physics.Stream.{follow, IsCharacterMsg}

-- The state of a character changes, and not which characters there are.
pub has-callback :
    (id st i : ℕ) (p : BtPhysics)
    → has i (set_input_state_callback id st p).characters ≡ has i p.characters
unfolding set_input_state_callback
has-callback id st i p = elim (Option-cases (lookup id p.characters)) [
  | inl e ↦ rw (e, set_input_state_callback)
  | inr (character, e) ↦
      rw (e, set_input_state_callback)
        (ground (arith, lookup-assign id (record character { state = st }) i p.characters))
]

pub characters-add_object :
    (id : ℕ) (t : Text) (m : Matrix) (p : BtPhysics)
    → (add_object id t m p).characters ≡ p.characters
unfolding add_object
characters-add_object id t m p = ground arith

-- What follows from a message that has been parsed: the rest of the stream does to the characters what
-- the whole did, and of the server at most one client has been looked up.
abbrev pub Parsed : ServerMsg → List ServerMsg → LocalServer → BtPhysics → Type 0
Parsed msg rest s p =
    (s' : LocalServer) × (p' : BtPhysics) × (parse_message msg s p ≡ ok (s', p'))
    × ((id : ℕ)
        → follow id rest (has id p'.characters) ≡ follow id (msg ∷ rest) (has id p.characters))
    × ((s' ≡ s) ⊎ ((c : ℕ) × (s' ≡ (get_client_id c s).1)))

pub parse_message-Parsed :
    (msg : ServerMsg) (rest : List ServerMsg) (s : LocalServer) (p : BtPhysics)
    → IsCharacterMsg msg
    → ((id : ℕ) → follow id (msg ∷ rest) (has id p.characters) ≢ none)
    → Parsed msg rest s p
unfolding parse_message follow add_character del_character
parse_message-Parsed (shutdown c) rest s p clean alive = (s, p, refl, λ id. refl, inl refl)
parse_message-Parsed (load_player c t) rest s p clean alive = (s, p, refl, λ id. refl, inl refl)
parse_message-Parsed (input c st) rest s p clean alive = (
  (get_client_id c s).1,
  set_input_state_callback (get_client_id c s).0 st p,
  refl,
  λ id. rw (has-callback (get_client_id c s).0 st id p),
  inr (c, refl),
)
parse_message-Parsed (force_state i st) rest s p clean alive =
    (s, set_input_state_callback i st p, refl, λ id. rw (has-callback i st id p), inl refl)
parse_message-Parsed (add_phys i t m) rest s p clean alive =
    (s, add_object i t m p, refl, λ id. rw (characters-add_object i t m p), inl refl)
parse_message-Parsed (add_char i t m) rest s p clean alive = (
  s,
  add_character i m p,
  refl,
  λ id. ground (arith, lookup-assign i (record { transform = m; state = 0 }) id p.characters),
  inl refl,
)
parse_message-Parsed (del_phys i) rest s p clean alive = absurd clean
parse_message-Parsed (del_char i) rest s p clean alive =
    elim (Option-cases (lookup i p.characters)) [
      | inl missing ↦ absurd (ground (arith, alive i))
      | inr (character, found) ↦ (
        s,
        record p {
          characters = erase i p.characters;
          world = record (p.world) {
            ghosts = remove i p.world.ghosts;
            actions = remove i p.world.actions;
          };
        },
        rw (found, del_character) refl,
        λ id. ground (arith, has-erase i p.characters id, alive id),
        inl refl,
      )
    ]
