-- ===== src/Examples/Network.antt =====
-- Two connections over the pipe.
use quintses.Common.{true, some, ℕ, ◌≡◌, refl, false, List, [], ◌∷◌, arith}
use quintses.Socket.{ok, read_pod}
use quintses.Messages.Server.{ServerMsg, input, load_player}
use quintses.Messages.Client.{ClientMsg, add_drawable}
use quintses.Network.RemoteClient as Client
use quintses.Network.RemoteClient.{RemoteClient, failed, reads, writes, run}
use quintses.Network.RemoteClient.Removal.{IsBalanced, run-IsBalanced}
use quintses.Network.RemoteServer as Server
use quintses.Network.RemoteServer.{RemoteServer, pushes, reads_next}
use quintses.Network.Transfer.{write_all, receive_all, received, write_all-receive_all}
use quintses.Network.Updates.{write_msg-read_msg}
use quintses.Common.Map.{lookup}
use quintses.Server.{LocalServer, to_physics, handle}
use quintses.Physics.{BtPhysics, parse_message}
use quintses.Physics.Run.Round.{state_of}
use quintses.Client.{
  LocalClient, key_press, xk_left, platform_events, process_events, process_key, has_key,
}
use quintses.Client.Keys.{left, bit, held}
use quintses.Network.Steering.{keys_steer}
use quintses.Examples.Wire.{pipe, pipe-IsReliable, baddie, baddie-IsText}

abbrev client : RemoteClient pipe
client = record { conn = []; next_msg_type = 0; marked_for_delete = false }

abbrev server : RemoteServer pipe
server = record { client = 7; conn = []; next_msg_type = 0 }

abbrev two_failures : List (Client.Event pipe)
two_failures = reads 0 (failed []) ∷ writes (add_drawable 5 baddie) [] ∷ reads 0 (failed []) ∷ []

run-IsBalanced_example : IsBalanced false (run 9 two_failures client)
run-IsBalanced_example = run-IsBalanced 9 two_failures client

abbrev two_messages : List ServerMsg
two_messages = load_player 7 baddie ∷ input 7 129 ∷ []

write_all-receive_all_example :
    (d : List ℕ) × (c' : RemoteClient pipe) × (write_all two_messages [] server
      ≡ ok (record server { conn = d }, []))
    × (receive_all 0 9 2 (record client { conn = d }) ≡ ok (c', received 9 two_messages))
    × (c'.conn ≡ [])
    × (c'.marked_for_delete ≡ false)
unfolding pipe-IsReliable
write_all-receive_all_example =
    write_all-receive_all pipe-IsReliable 0 9 two_messages [] server client
      ((omega arith, baddie-IsText), (omega arith, tt)) refl tt refl

write_msg-read_msg_example :
    (sent read : List ℕ) × (final : List ℕ) × (Client.write_msg (add_drawable 5 baddie) [] client
      ≡ ok (record client { conn = sent }, []))
    × (read_pod pipe 4 sent ≡ ok (0, read))
    × (Server.read_msg [] (Server.arrived 0 read) server
        ≡ ok (
          record server { conn = final; next_msg_type = 0 },
          pushes 7 (add_drawable 5 baddie) ∷ reads_next ∷ [],
        ))
    × (final ≡ [])
unfolding pipe-IsReliable quintses.Messages.Client.type
write_msg-read_msg_example =
    write_msg-read_msg pipe-IsReliable [] (add_drawable 5 baddie) [] client server
      (omega arith, (omega arith, baddie-IsText)) tt refl

-- A client that holds the left key, and the server with its player.
abbrev local_client : LocalClient
local_client = record { self = 7; finished = false; keymap = 0 }

abbrev game : LocalServer
game = record {
  clients = (9, 1) ∷ [];
  lobby_clients = [];
  player_spawn = [];
  next_id = 2;
  baddies = [];
  running = true;
  ticks = 0;
}

abbrev engine : BtPhysics
engine = record {
  objects = [];
  characters = (1, record { transform = []; state = 0 }) ∷ [];
  world = record { bodies = []; ghosts = 1 ∷ []; actions = 1 ∷ [] };
}

keys_steer_example :
    (keymap : ℕ) × (d : List ℕ) × (c' : RemoteClient pipe) × (p' : BtPhysics) × (write_all
        (platform_events (key_press xk_left ∷ []) local_client).1
        []
        server
      ≡ ok (record server { conn = d }, []))
    × (receive_all 0 9 1 (record client { conn = d })
        ≡ ok (c', Client.pushes (input 9 keymap) ∷ Client.reads_next ∷ []))
    × (handle (input 9 keymap) game ≡ (game, to_physics (input 9 keymap) ∷ []))
    × (parse_message (input 9 keymap) game engine ≡ ok (game, p'))
    × (state_of 1 p'.characters ≡ some keymap)
    × (has_key (bit left) keymap ≡ true)
unfolding pipe-IsReliable lookup process_events process_key held
keys_steer_example =
    keys_steer pipe-IsReliable left (key_press xk_left ∷ []) local_client 0 9 1 0 [] server client
      game engine (omega arith) refl refl tt refl refl refl
