-- ===== src/Examples/Physics.antt =====
-- A game in which a player joins and leaves.
use quintses.Physics.Registered.{IsRegistered}
use quintses.Physics.Stream.Orderly.{adding, present}
use quintses.Physics.Stream.Registered.{Reach-IsRegistered}
use quintses.Common.{◌+◌, ◌≤◌, ltb, if◌then◌else◌, ◌≡◌, refl, true, [], ◌∷◌, arith}
use quintses.Common.Map.{has, lookup, assign, insert, keys}
use quintses.Socket.{ok, err, null_pointer}
use quintses.Messages.Server.{ServerMsg, add_char, del_char}
use quintses.PhysicsIface.{add_physical}
use quintses.Server as Model
use quintses.Server.{LocalServer, player, load_player, handle, get_next_identifier, broadcast}
use quintses.Physics as Engine
use quintses.Physics.{BtPhysics, parse_message, parse_all, add_character}
use quintses.Physics.Reversed.{parse_all-reversed}
use quintses.Physics.Stream.{Game, Reach, start, later, loads, parses, called, physics_msgs}
use quintses.Physics.Stream.Safety.{parse_message-safe, players-have_characters}

abbrev server : LocalServer
server = Model.init []

parse_all-reversed_example :
    ((q : BtPhysics) × (parse_all (add_char 1 player [] ∷ del_char 1 ∷ []) server Engine.init
        ≡ ok (server, q)))
    × (parse_all (del_char 1 ∷ add_char 1 player [] ∷ []) server Engine.init ≡ err null_pointer)
unfolding Engine.init lookup
parse_all-reversed_example = parse_all-reversed 1 player [] server Engine.init refl

abbrev began : Game
began = record { server = Model.init []; physics = Engine.init; pending = [] }

abbrev joined : Game
joined = called began (handle (ServerMsg.load_player 100 player) began.server)

joined-Reach : Reach [] joined
unfolding Model.init
joined-Reach = later start (loads began 100 player (omega arith))

parse_message-safe_example :
    (s : LocalServer) × (p : BtPhysics) × (parse_message
        (add_char 1 player [])
        joined.server
        joined.physics
      ≡ ok (s, p))
unfolding Model.init handle load_player get_next_identifier add_physical physics_msgs broadcast
    insert assign lookup keys
parse_message-safe_example = parse_message-safe (add_char 1 player []) [] joined-Reach refl

abbrev played : Game
played = record { server = joined.server; physics = add_character 1 [] Engine.init; pending = [] }

played-Reach : Reach [] played
unfolding Model.init handle load_player get_next_identifier add_physical physics_msgs broadcast
    insert assign lookup keys parse_message
played-Reach = later joined-Reach (
    parses joined (add_char 1 player []) [] joined.server (add_character 1 [] Engine.init) refl
      refl)

players-have_characters_example : has 1 played.physics.characters ≡ true
unfolding Model.init handle load_player get_next_identifier insert assign lookup keys
players-have_characters_example = players-have_characters 100 1 played-Reach refl refl (omega arith)

Reach-IsRegistered_example :
    IsRegistered played.physics
    × (adding 1 played.pending + present 1 played.physics
        ≤ (if ltb 1 played.server.next_id then 1 else 0))
Reach-IsRegistered_example = Reach-IsRegistered 1 played-Reach
