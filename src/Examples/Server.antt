-- ===== src/Examples/Server.antt =====
-- A server with two players and a client in the lobby.
use quintses.Common.{◌≡◌, refl, true, false, some, List, [], ◌∷◌, arith}
use quintses.Common.Map.{has, lookup}
use quintses.Messages.Server.{del_char, input}
use quintses.Messages.Client.{del_drawable, add_drawable}
use quintses.Server as Model
use quintses.Socket.{ok}
use quintses.Server.Closing.{closings}
use quintses.Server.Registered.{is_registered}
use quintses.Physics as Engine
use quintses.Physics.{parse_message, set_input_state_callback}
use quintses.Physics.Dangling.{removed, back, messages_after_removal}
use quintses.Server.{
  LocalServer, BaddieData, Effect, to_physics, player, strafe_left, strafe_right,
  run_tick_callbacks, set_inputs, add_client, remove_client, push_client_transforms, loop,
}
use quintses.Server.Identifiers.{Inv, run, adds, loads, identifiers_unique}
use quintses.Server.Delivery.{sent_to, trans_msgs, remove_client-delivery}
use quintses.Server.{finish}

abbrev guard : BaddieData
guard = record { templ = b'B' ∷ []; id = 3 }

abbrev server : LocalServer
server = record {
  clients = (100, 1) ∷ (200, 2) ∷ [];
  lobby_clients = (300, tt) ∷ [];
  player_spawn = [];
  next_id = 4;
  baddies = guard ∷ [];
  running = true;
  ticks = 0;
}

identifiers_unique_example : Inv (run (adds 100 ∷ loads 100 player ∷ []) (Model.init []))
identifiers_unique_example = identifiers_unique [] (adds 100 ∷ loads 100 player ∷ []) (omega arith)

remove_client-delivery_example :
    ((rest : List Effect) × ((remove_client 100 server).1 ≡ to_physics (del_char 1) ∷ rest))
    × (sent_to 300 (remove_client 100 server).1 ≡ del_drawable 1 ∷ [])
    × (has 100 (remove_client 100 server).0.clients ≡ false)
    × (has 100 (remove_client 100 server).0.lobby_clients ≡ false)
unfolding lookup
remove_client-delivery_example =
    remove_client-delivery 100 300 1 server (omega arith, (omega arith, tt)) (omega arith, tt) refl
      (omega arith)

messages_after_removal_example :
    (is_registered 100 (removed 100 server) ≡ false)
    × (parse_message (input 100 1) (removed 100 server) Engine.init
        ≡ ok (back 100 server, set_input_state_callback 0 1 Engine.init))
    × (lookup 100 (back 100 server).clients ≡ some 0)
    × (sent_to 100 (push_client_transforms ((2, []) ∷ []) (back 100 server))
        ≡ trans_msgs ((2, []) ∷ []))
    × (closings 100 (finish (back 100 server)).1 ≡ 1)
    × (sent_to 100 (Model.load_player 100 player (removed 100 server)).1
        ≡ add_drawable (removed 100 server).next_id player ∷ [])
messages_after_removal_example =
    messages_after_removal 100 1 player ((2, []) ∷ []) server Engine.init
      (omega arith, (omega arith, tt)) (omega arith, tt)
