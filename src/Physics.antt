-- ===== src/Physics.antt =====
-- server/bullet/btphysics.cpp and server/bullet/btphysics.hpp: the class `BtPhysics`. Of the bullet
-- engine the model keeps which bodies, ghosts and actions are registered with `m_world`, each under
-- the identifier of its object.
pub mod Registered
pub mod Stream
pub mod Reversed
pub mod Dangling
pub mod Contract
pub mod Visit
pub mod Run
pub mod Life
use quintses.Common.{ℕ, Bool, true, false, Option, none, some, List, [], ◌∷◌, ◌==◌, if◌then◌else◌}
use quintses.Common.Map.{Map, lookup, assign, erase}
use quintses.Common.Text.{text_eq}
use quintses.Socket.{Result, ok, err, null_pointer}
use quintses.Messages.Server.{
  ServerMsg, Matrix, Text, input, add_phys, add_char, del_phys, del_char, force_state,
}
use quintses.Server.{LocalServer, get_client_id}

-- A `btVector3` with components -1, 0 or 1.
pub data Component : Type 0 where
  minus zero plus : Component

pub record Normal : Type 0 where
  pub x : Component
  pub y : Component
  pub z : Component

-- The struct `planeParams`.
pub record PlaneParams : Type 0 where
  pub name : Text
  pub normal : Normal

abbrev pub planes : List PlaneParams
planes =
    record {
      name = b'F' ∷ b'l' ∷ b'o' ∷ b'o' ∷ b'r' ∷ [];
      normal = record { x = zero; y = zero; z = plus };
    }
    ∷ record {
      name = b'L' ∷ b'W' ∷ b'a' ∷ b'l' ∷ b'l' ∷ [];
      normal = record { x = plus; y = zero; z = zero };
    }
    ∷ record {
      name = b'R' ∷ b'W' ∷ b'a' ∷ b'l' ∷ b'l' ∷ [];
      normal = record { x = minus; y = zero; z = zero };
    }
    ∷ []

-- The struct `PhysicsObject`: the plane of its shape and the transform of its motion state.
pub record PhysicsObject : Type 0 where
  pub normal : Normal
  pub transform : Matrix

-- The struct `CharacterObject`: the world transform of its ghost, and `m_state`.
pub record CharacterObject : Type 0 where
  pub transform : Matrix
  pub state : ℕ

-- What `m_world` refers to.
pub record World : Type 0 where
  pub bodies : List ℕ
  pub ghosts : List ℕ
  pub actions : List ℕ

pub record BtPhysics : Type 0 where
  pub objects : Map PhysicsObject
  pub characters : Map CharacterObject
  pub world : World

unfoldable pub init : BtPhysics
init = record {
  objects = [];
  characters = [];
  world = record { bodies = []; ghosts = []; actions = [] };
}

-- The removal of one registration.
unfoldable pub remove : ℕ → List ℕ → List ℕ
remove i [] = []
remove i (j ∷ is) = let rest = remove i is in if j == i then is else j ∷ rest

-- The loop over `planes` by the template.
unfoldable pub find_plane : Text → List PlaneParams → Option Normal
find_plane t [] = none
find_plane t (p ∷ ps) = if text_eq p.name t then some p.normal else find_plane t ps

-- `setInputStateCallback`
unfoldable pub set_input_state_callback : ℕ → ℕ → BtPhysics → BtPhysics
set_input_state_callback id state p = elim (lookup id p.characters) [
  | none ↦ p
  | some character ↦ record p {
    characters = assign id (record character { state = state }) p.characters;
  }
]

-- The case `AddPhysMessage`
unfoldable pub add_object : ℕ → Text → Matrix → BtPhysics → BtPhysics
unfolding find_plane
add_object id t mat p = elim (find_plane t planes) [
  | none ↦ p
  | some normal ↦ record p {
    objects = assign id (record { normal = normal; transform = mat }) p.objects;
    world = record (p.world) { bodies = id ∷ p.world.bodies };
  }
]

-- The case `AddCharMessage`
unfoldable pub add_character : ℕ → Matrix → BtPhysics → BtPhysics
add_character id mat p = record p {
  characters = assign id (record { transform = mat; state = 0 }) p.characters;
  world = record (p.world) { ghosts = id ∷ p.world.ghosts; actions = id ∷ p.world.actions };
}

-- The case `DelPhysMessage`: `m_objects[id]` of a missing object is null.
unfoldable pub del_object : ℕ → BtPhysics → Result BtPhysics
unfolding remove
del_object id p = elim (lookup id p.objects) [
  | none ↦ err null_pointer
  | some object ↦ ok (record p {
    objects = erase id p.objects;
    world = record (p.world) { bodies = remove id p.world.bodies };
  })
]

-- The case `DelCharMessage`
unfoldable pub del_character : ℕ → BtPhysics → Result BtPhysics
unfolding remove
del_character id p = elim (lookup id p.characters) [
  | none ↦ err null_pointer
  | some character ↦ ok (record p {
    characters = erase id p.characters;
    world = record (p.world) {
      ghosts = remove id p.world.ghosts;
      actions = remove id p.world.actions;
    };
  })
]

abbrev with_server : LocalServer → Result BtPhysics → Result (LocalServer × BtPhysics)
with_server s (ok p) = ok (s, p)
with_server s (err e) = err e

-- `parseMessage`. An input message looks its client up in the server, which may change the server.
unfoldable pub parse_message :
    ServerMsg → LocalServer → BtPhysics → Result (LocalServer × BtPhysics)
parse_message (force_state id st) s p = ok (s, set_input_state_callback id st p)
parse_message (input c st) s p =
    let (obj_id, s') = get_client_id c s in ok (s', set_input_state_callback obj_id st p)
parse_message (add_phys id t m) s p = ok (s, add_object id t m p)
parse_message (add_char id t m) s p = ok (s, add_character id m p)
parse_message (del_phys id) s p = with_server s (del_object id p)
parse_message (del_char id) s p = with_server s (del_character id p)
parse_message msg s p = ok (s, p)

abbrev next_message :
    (LocalServer → BtPhysics → Result (LocalServer × BtPhysics))
    → Result (LocalServer × BtPhysics)
    → Result (LocalServer × BtPhysics)
next_message rest (ok (s, p)) = rest s p
next_message rest (err e) = err e

-- The loop over the queue in `run`, on the messages in the order in which `try_pop` returns them.
unfoldable pub parse_all :
    List ServerMsg → LocalServer → BtPhysics → Result (LocalServer × BtPhysics)
parse_all [] s p = ok (s, p)
parse_all (msg ∷ msgs) s p = next_message (parse_all msgs) (parse_message msg s p)
