-- ===== src/Server.antt =====
-- server/localserver.cpp and server/localserver.hpp: the class `LocalServer`. A client is the
-- address of its `ClientIface`; its calls of other objects are effects, in the order of the calls.
-- The functions hold `m_clients_mutex`, but for those of `loadWorld`, so that each is one step.
pub mod Identifiers
pub mod Delivery
pub mod Ticks
pub mod Unregistered
pub mod Shutdown
pub mod Closing
pub mod Registered
use quintses.Common.{
  ℕ, suc, ◌+◌, ◌%◌, ◌^◌, Bool, true, false, List, [], ◌∷◌, ◌++◌, map, ltb, ◌==◌, if◌then◌else◌,
}
use quintses.Common.Map.{Map, lookup, insert, erase, index, keys}
use quintses.Messages.Server.{ServerMsg, Matrix, Text, input}
use quintses.Messages.Client.{ClientMsg, add_drawable, trans_drawable, del_drawable}
use quintses.PhysicsIface.{add_physical, del_physical}

-- The struct `BaddieData`.
pub record BaddieData : Type 0 where
  pub templ : Text
  pub id : ℕ

pub record LocalServer : Type 0 where
  pub clients : Map ℕ
  pub lobby_clients : Map (Unit {0})
  pub player_spawn : Matrix
  pub next_id : ℕ
  pub baddies : List BaddieData
  pub running : Bool
  pub ticks : ℕ

-- `pushMessage` of a client or of the physics engine, `setInputStateCallback`, `serverClosed` of a
-- client, and `finish` of the physics engine.
pub data Effect : Type 0 where
  to_client : ℕ → ClientMsg → Effect
  to_physics : ServerMsg → Effect
  set_input : ℕ → ℕ → Effect
  closes : ℕ → Effect
  finish_physics : Effect

-- "Player"
abbrev pub player : Text
player = b'P' ∷ b'l' ∷ b'a' ∷ b'y' ∷ b'e' ∷ b'r' ∷ []

-- `ServerInputMsg::StrafeLeft` and `StrafeRight`
abbrev pub strafe_left : ℕ
strafe_left = 2 ^ 0

abbrev pub strafe_right : ℕ
strafe_right = 2 ^ 1

-- The constructor `LocalServer()`; the default `glm::mat4` is `identity`.
unfoldable pub init : Matrix → LocalServer
init identity = record {
  clients = [];
  lobby_clients = [];
  player_spawn = identity;
  next_id = 1;
  baddies = [];
  running = false;
  ticks = 0;
}

-- `isLocal`
abbrev pub is_local : Bool
is_local = true

-- The same message to each of several clients.
unfoldable pub broadcast : List ℕ → ClientMsg → List Effect
broadcast [] msg = []
broadcast (c ∷ cs) msg = to_client c msg ∷ broadcast cs msg

-- `getNextIdentifier`: `fetchAndIncrement` on a `uint32_t`.
unfoldable pub get_next_identifier : LocalServer → ℕ × LocalServer
get_next_identifier s = (s.next_id, record s { next_id = (s.next_id + 1) % 2 ^ 32 })

-- `getClientId`, whose `m_clients[cli]` inserts a missing client.
unfoldable pub get_client_id : ℕ → LocalServer → ℕ × LocalServer
get_client_id cli s = ((index cli s.clients).0, record s { clients = (index cli s.clients).1 })

-- The drawables that `addClient` sends: one for each player, then one for each baddie.
unfoldable pub player_drawables : ℕ → Map ℕ → List Effect
player_drawables c [] = []
player_drawables c ((k, id) ∷ m) = to_client c (add_drawable id player) ∷ player_drawables c m

unfoldable pub baddie_drawables : ℕ → List BaddieData → List Effect
baddie_drawables c [] = []
baddie_drawables c (b ∷ bs) = to_client c (add_drawable b.id b.templ) ∷ baddie_drawables c bs

unfoldable pub add_client : ℕ → LocalServer → LocalServer × List Effect
add_client c s = (
  record s { lobby_clients = insert c tt s.lobby_clients },
  player_drawables c s.clients ++ baddie_drawables c s.baddies,
)

unfoldable pub remove_client : ℕ → LocalServer → LocalServer × List Effect
remove_client c s =
    let client_id : ℕ = (index c s.clients).0 in
    let left : Map ℕ = erase c (index c s.clients).1 in
    let lobby : Map (Unit {0}) = erase c s.lobby_clients in
    (
      record s { clients = left; lobby_clients = lobby },
      (if client_id == 0
          then []
          else to_physics (del_physical client_id true)
            ∷ (broadcast (keys left) (del_drawable client_id)
                ++ broadcast (keys lobby) (del_drawable client_id))),
    )

-- `pushClientTransforms`: each transform to the players and then to the lobby.
unfoldable pub push_client_transforms : List (ℕ × Matrix) → LocalServer → List Effect
push_client_transforms [] s = []
push_client_transforms ((id, mat) ∷ trans) s =
    broadcast (keys s.clients) (trans_drawable id mat)
    ++ (broadcast (keys s.lobby_clients) (trans_drawable id mat) ++ push_client_transforms trans s)

-- The call of `setInputStateCallback` for each baddie.
unfoldable pub set_inputs : ℕ → List BaddieData → List Effect
set_inputs state [] = []
set_inputs state (b ∷ bs) = set_input b.id state ∷ set_inputs state bs

-- The first lines of `runTickCallbacks`: the counter, and the state that it stands for.
unfoldable pub next_tick : ℕ → ℕ
next_tick ticks = if (ticks + 1) % 2 ^ 32 == 40 then 0 else (ticks + 1) % 2 ^ 32

unfoldable pub baddie_state : ℕ → ℕ
baddie_state ticks = if ltb ticks 20 then strafe_left else strafe_right

unfoldable pub run_tick_callbacks : LocalServer → LocalServer × List Effect
unfolding next_tick baddie_state
run_tick_callbacks s = (
  record s { ticks = next_tick s.ticks },
  set_inputs (baddie_state (next_tick s.ticks)) s.baddies,
)

-- `loadPlayer`
unfoldable pub load_player : ℕ → Text → LocalServer → LocalServer × List Effect
unfolding get_next_identifier
load_player client templ s =
    let id : ℕ = (get_next_identifier s).0 in
    let clients : Map ℕ = insert client id s.clients in
    (
      record s {
        lobby_clients = erase client s.lobby_clients;
        next_id = (get_next_identifier s).1.next_id;
        clients = clients;
      },
      to_physics (add_physical id templ s.player_spawn true)
          ∷ broadcast (keys clients) (add_drawable id templ),
    )

-- The body of the loops of `loadMobGroup`, for a baddie at `trans`.
unfoldable pub spawn_baddie : Text → Matrix → LocalServer → LocalServer × List Effect
unfolding get_next_identifier
spawn_baddie templ trans s =
    let id : ℕ = (get_next_identifier s).0 in
    (
      record s {
        next_id = (get_next_identifier s).1.next_id;
        baddies = s.baddies ++ record { templ = templ; id = id } ∷ [];
      },
      to_physics (add_physical id templ trans true) ∷ [],
    )

-- The body of the loop of `loadWorld` over the blockers.
unfoldable pub add_blocker : Text → Matrix → LocalServer → LocalServer × List Effect
unfolding get_next_identifier
add_blocker templ trans s = (
  record s { next_id = (get_next_identifier s).1.next_id },
  to_physics (add_physical (get_next_identifier s).0 templ trans false) ∷ [],
)

-- One round of the loop of `run`, for a message that is not `ShutdownMessage`.
unfoldable pub handle : ServerMsg → LocalServer → LocalServer × List Effect
handle (input c st) s = (s, to_physics (input c st) ∷ [])
handle (ServerMsg.load_player c t) s = load_player c t s
handle msg s = (s, [])

-- The loop of `run` on the messages in the order in which `wait_pop` returns them: whether it has
-- ended, and what it has done.
unfoldable pub loop : List ServerMsg → LocalServer → Bool × LocalServer × List Effect
loop [] s = (false, s, [])
loop (ServerMsg.shutdown c ∷ msgs) s = (true, s, [])
loop (msg ∷ msgs) s =
    let (ended, s', out) = loop msgs (handle msg s).0 in (ended, s', (handle msg s).1 ++ out)

unfoldable pub close_all : List ℕ → List Effect
close_all [] = []
close_all (c ∷ cs) = closes c ∷ close_all cs

-- `run` behind its loop.
unfoldable pub finish : LocalServer → LocalServer × List Effect
finish s = (
  record s { running = false },
  finish_physics ∷ (close_all (keys s.clients) ++ close_all (keys s.lobby_clients)),
)
