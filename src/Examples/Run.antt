-- ===== src/Examples/Run.antt =====
-- A bullet world of whole numbers, in which everything stands still.
use quintses.Common.{
  ℕ, ◌≡◌, refl, Bool, true, false, some, List, [], ◌∷◌, arith, ◌+◌, not, if◌then◌else◌,
}
use quintses.Common.Map.{has, lookup, keys, assign, insert, erase, index}
use quintses.Socket.{ok}
use quintses.Messages.Server.{ServerMsg, add_char, input, force_state}
use quintses.Server as Model
use quintses.Server.{
  LocalServer, Effect, BaddieData, next_tick, baddie_state, strafe_left, get_client_id,
}
use quintses.Server.Delivery.{sent_to, trans_msgs}
use quintses.Server.Identifiers.{Inv, run, step, adds, loads, spawns, identifiers_unique}
use quintses.Physics as Engine
use quintses.Physics.{
  BtPhysics, CharacterObject, add_character, parse_all, parse_message, set_input_state_callback,
}
use quintses.Physics.Registered.{IsRegistered, init-IsRegistered, parse_message-IsRegistered}
use quintses.Physics.Run.{Bullet, Running, round}
use quintses.Physics.Run.Round.{state_of, posed, round-delivery, round-steering}
use quintses.Lifecycle.{steps, Event, of_owner, of_thread, spurious}
use quintses.Physics.Life.{Arrivals, construct, bt_steps}
use quintses.Physics.Run.Kept.{OnOk}
use quintses.Physics.Life.Ending.{IsEmpty, finish-IsEmpty}
use quintses.Physics.Contract.{bt_physics}
use quintses.Physics.Visit.{visit, deliver_all, visit_lem}

-- Directions by whether they are odd; the simulation counts its steps.
abbrev xor : Bool → Bool → Bool
xor a b = if a then not b else b

abbrev still : Bullet
still = record {
  Vector = Bool;
  nought = false;
  plus = xor;
  minus = xor;
  at_speed = λ v. v;
  side = λ m. true;
  forward = λ m. true;
  turned_left = λ m. m;
  turned_right = λ m. m;
  Simulation = ℕ;
  can_jump = λ id n. true;
  jump = λ id n. n;
  set_walk_direction = λ id v n. n;
  step_simulation = λ m n. n + 1;
  world_transform = λ id n. id ∷ n ∷ [];
}

abbrev server : LocalServer
server = record {
  clients = (100, 1) ∷ [];
  lobby_clients = [];
  player_spawn = [];
  next_id = 3;
  baddies = record { templ = b'B' ∷ []; id = 2 } ∷ [];
  running = false;
  ticks = 0;
}

server-Inv : Inv server
unfolding run step Model.spawn_baddie Model.load_player insert assign Model.add_client Model.init
    erase lookup
server-Inv =
    identifiers_unique [] (adds 100 ∷ loads 100 (b'P' ∷ []) ∷ spawns (b'B' ∷ []) [] ∷ [])
      (omega arith)

-- The player and the baddie, with their input states.
abbrev engine_of : ℕ → ℕ → BtPhysics
engine_of player guard = record {
  objects = [];
  characters =
      (1, record { transform = []; state = player })
      ∷ (2, record { transform = []; state = guard })
      ∷ [];
  world = record { bodies = []; ghosts = 1 ∷ 2 ∷ []; actions = 1 ∷ 2 ∷ [] };
}

abbrev engine : BtPhysics
engine = engine_of 0 0

abbrev begun : Running still
begun = record { server = server; physics = engine; simulation = 7 }

abbrev messages : List ServerMsg
messages = input 100 5 ∷ force_state 2 9 ∷ []

parsed : parse_all messages server engine ≡ ok (server, engine_of 5 9)
unfolding parse_all parse_message set_input_state_callback lookup assign get_client_id index
parsed = refl

round-delivery_example :
    (r' : Running still) × (out : List Effect) × (round still messages begun ≡ ok (r', out))
    × (sent_to 100 out ≡ trans_msgs (posed still (1 ∷ 2 ∷ []) r'.simulation))
unfolding lookup keys
round-delivery_example =
    round-delivery still messages begun server (engine_of 5 9) 100 parsed server-Inv refl

round-steering_example :
    (r' : Running still) × (out : List Effect) × (round still messages begun ≡ ok (r', out))
    × (state_of 2 r'.physics.characters ≡ some strafe_left)
unfolding lookup baddie_state next_tick
round-steering_example = round-steering still messages begun server (engine_of 5 9) 2 parsed

engine-IsRegistered : IsRegistered engine
unfolding Engine.init add_character assign lookup parse_message
engine-IsRegistered =
    parse_message-IsRegistered (add_char 1 (b'P' ∷ []) []) server
      (parse_message-IsRegistered (add_char 2 (b'B' ∷ []) []) server init-IsRegistered refl refl)
      refl refl

visit_lem_example :
    (p : BtPhysics) × (deliver_all bt_physics (visit 300 (b'P' ∷ []) server) server engine
      ≡ ok (server, p))
    × ((i : ℕ) → state_of i p.characters ≡ state_of i engine.characters)
    × ((i : ℕ) → has i p.objects ≡ has i engine.objects)
unfolding lookup
visit_lem_example =
    visit_lem bt_physics 300 (b'P' ∷ []) server server engine refl (omega arith) refl

-- An engine that is sent a character and lives for a round.
abbrev lives : List Event
lives =
    of_owner ∷ of_thread ∷ of_thread ∷ of_thread ∷ of_owner ∷ of_thread ∷ of_owner ∷ of_thread
    ∷ of_thread ∷ spurious ∷ of_thread ∷ of_thread ∷ of_owner ∷ []

abbrev coming : List Arrivals
coming = record { server = server; messages = add_char 7 [] [] ∷ force_state 7 1 ∷ [] } ∷ []

finish-IsEmpty_example :
    OnOk (IsEmpty still 7) (bt_steps still lives (construct still server 0 coming)).work
unfolding lookup Engine.init parse_message round parse_all bt_steps steps construct
finish-IsEmpty_example = finish-IsEmpty still server 0 coming lives 7 ((refl, (tt, tt)), tt) refl
