-- ===== src/Examples/Client.antt =====
-- A client that shows a scene, reads the keys, and is closed.
use quintses.Common.{◌≡◌, true, false, none, List, [], ◌∷◌}
use quintses.Common.Map.{has, lookup}
use quintses.Messages.Client.{ClientMsg, add_drawable, trans_drawable}
use quintses.Server.{LocalServer, player, add_client}
use quintses.Server.Delivery.{sent_to}
use quintses.Render.Scene.{push_all, track_all, push_all-track, add_client-scene}
use quintses.Client.{LocalClient, XEvent, key_press, key_release, xk_left, space}

abbrev updates : List ClientMsg
updates =
    add_drawable 1 player ∷ trans_drawable 1 (9 ∷ []) ∷ trans_drawable 2 [] ∷ add_drawable 1 [] ∷ []

push_all-track_example : lookup 1 (push_all [] updates []) ≡ track_all [] 1 updates none
unfolding lookup
push_all-track_example = push_all-track [] 1 updates []

abbrev server : LocalServer
server = record {
  clients = (100, 1) ∷ [];
  lobby_clients = [];
  player_spawn = [];
  next_id = 3;
  baddies = record { templ = []; id = 2 } ∷ [];
  running = true;
  ticks = 0;
}

add_client-scene_example : has 2 (push_all [] (sent_to 300 (add_client 300 server).1) []) ≡ true
add_client-scene_example = add_client-scene [] 300 2 server

abbrev client : LocalClient
client = record { self = 7; finished = false; keymap = 0 }

abbrev keys : List XEvent
keys = key_press xk_left ∷ key_press space ∷ key_release space ∷ []
