-- ===== src/Physics/Reversed.antt =====
-- The engine on a batch that its queue returns newest first, as the default queue does.
use quintses.Common.{ℕ, ◌≡◌, refl, none, [], ◌∷◌}
use quintses.Common.Map.{lookup, erase, lookup_assigned}
use quintses.Socket.{ok, err, null_pointer}
use quintses.Messages.Server.{Matrix, Text, add_char, del_char}
use quintses.Server.{LocalServer}
use quintses.Physics.{BtPhysics, remove, add_character, del_character, parse_message, parse_all}

-- A character that does not exist yet is added and deleted within one batch: in the order of the
-- pushes the engine handles both messages, and in the reverse order it follows a null pointer.
pub parse_all-reversed :
    (id : ℕ) (t : Text) (m : Matrix) (s : LocalServer) (p : BtPhysics)
    → lookup id p.characters ≡ none
    → ((q : BtPhysics) × (parse_all (add_char id t m ∷ del_char id ∷ []) s p ≡ ok (s, q)))
      × (parse_all (del_char id ∷ add_char id t m ∷ []) s p ≡ err null_pointer)
unfolding parse_all parse_message add_character del_character
parse_all-reversed id t m s p new =
    let added = add_character id m p in
    (
      (
        record added {
          characters = erase id added.characters;
          world = record (added.world) {
            ghosts = remove id added.world.ghosts;
            actions = remove id added.world.actions;
          };
        },
        rw
            (
              lookup_assigned id (record { transform = m; state = 0 }) p.characters,
              parse_all,
              parse_message,
              del_character,
              add_character,
            )
            refl,
      ),
      rw (new, parse_all, parse_message, del_character) refl,
    )
