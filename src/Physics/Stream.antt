-- ===== src/Physics/Stream.antt =====
-- The server and the physics engine, which drains its queue in order (the locked queue) at its own
-- pace: the messages of the server never make `parseMessage` follow a null pointer.
pub mod Calls
pub mod Parses
pub mod Safety
pub mod Orderly
pub mod Uses
pub mod Registered
use quintses.Common.{
  ℕ, suc, ◌+◌, ◌^◌, ◌<◌, ◌≡◌, ◌≢◌, refl, ap, ◌∙◌, Bool, true, false, Option, some, none, List, [],
  ◌∷◌, ◌++◌, arith, ◌==◌, if◌then◌else◌, Option-cases, Bool-cases, inl, inr, All, All-append,
}
use quintses.Common.Map.{Map, has, lookup, assign, erase, lookup-assign, has-erase, index_found}
use quintses.Socket.{Result, ok, err}
use quintses.Messages.Server.{
  ServerMsg, Matrix, Text, shutdown, input, load_player, add_phys, add_char, del_phys, del_char,
  force_state,
}
use quintses.Server.{
  LocalServer, Effect, to_client, to_physics, set_input, closes, finish_physics, add_client,
  remove_client, spawn_baddie, add_blocker, run_tick_callbacks, get_client_id, handle,
}
use quintses.Server
use quintses.Server.Identifiers
use quintses.Physics.{
  BtPhysics, CharacterObject, set_input_state_callback, add_object, add_character, del_object,
  del_character, parse_message, init,
}

-- What the calls of the server push to the physics engine, in order.
unfoldable pub physics_msgs : List Effect → List ServerMsg
physics_msgs [] = []
physics_msgs (to_physics msg ∷ es) = msg ∷ physics_msgs es
physics_msgs (e ∷ es) = physics_msgs es

pub record Game : Type 0 where
  pub server : LocalServer
  pub physics : BtPhysics
  pub pending : List ServerMsg

-- The server makes a call, and its messages join the queue.
abbrev pub called : Game → LocalServer × List Effect → Game
called g (s, out) = record g { server = s; pending = g.pending ++ physics_msgs out }

pub data Step : Game → Game → Type 0 where
  adds : (g : Game) (c : ℕ) → Step g (called g (add_client c g.server))
  removes : (g : Game) (c : ℕ) → Step g (called g (remove_client c g.server))
  loads :
      (g : Game) (c : ℕ) (t : Text)
      → g.server.next_id + 1 < 2 ^ 32
      → Step g (called g (handle (load_player c t) g.server))
  inputs : (g : Game) (c st : ℕ) → Step g (called g (handle (input c st) g.server))
  spawns :
      (g : Game) (t : Text) (m : Matrix)
      → g.server.next_id + 1 < 2 ^ 32
      → Step g (called g (spawn_baddie t m g.server))
  blocks :
      (g : Game) (t : Text) (m : Matrix)
      → g.server.next_id + 1 < 2 ^ 32
      → Step g (called g (add_blocker t m g.server))
  ticks : (g : Game) → Step g (called g (run_tick_callbacks g.server))
  parses :
      (g : Game) (msg : ServerMsg) (rest : List ServerMsg) (s : LocalServer) (p : BtPhysics)
      → g.pending ≡ msg ∷ rest
      → parse_message msg g.server g.physics ≡ ok (s, p)
      → Step g (record { server = s; physics = p; pending = rest })

pub data Reach (spawn : Matrix) : Game → Type 0 where
  start : Reach spawn (record { server = Server.init spawn; physics = init; pending = [] })
  later : {g h : Game} → Reach spawn g → Step g h → Reach spawn h

-- Whether a character exists after some messages; none where one of them deletes it in vain.
unfoldable pub follow : ℕ → List ServerMsg → Bool → Option Bool
follow id [] b = some b
follow id (add_char i t m ∷ msgs) b = follow id msgs (if i == id then true else b)
follow id (del_char i ∷ msgs) b =
    let gone = follow id msgs false in
    let rest = follow id msgs b in if i == id then (if b then gone else none) else rest
follow id (msg ∷ msgs) b = follow id msgs b

abbrev pub IsCharacterMsg : ServerMsg → Type 0
IsCharacterMsg (del_phys id) = ⊥
IsCharacterMsg msg = Unit

pub record Inv (g : Game) : Type 0 where
  pub ids : Identifiers.Inv g.server
  pub clean : All IsCharacterMsg g.pending
  pub alive : (id : ℕ) → follow id g.pending (has id g.physics.characters) ≢ none
  pub owned :
      (c id : ℕ)
      → lookup c g.server.clients ≡ some id
      → id ≢ 0
      → follow id g.pending (has id g.physics.characters) ≡ some true

pub follow-append :
    (id : ℕ) (xs ys : List ServerMsg) (b : Bool)
    → follow id (xs ++ ys) b ≡ elim (follow id xs b) [ none ↦ none | some c ↦ follow id ys c ]
unfolding follow
follow-append id [] ys b = refl
follow-append id (add_char i t m ∷ msgs) ys b =
    follow-append id msgs ys (if i == id then true else b)
follow-append id (del_char i ∷ msgs) ys b =
    ground (arith, follow-append id msgs ys false, follow-append id msgs ys b)
follow-append id (shutdown c ∷ msgs) ys b = follow-append id msgs ys b
follow-append id (input c st ∷ msgs) ys b = follow-append id msgs ys b
follow-append id (load_player c t ∷ msgs) ys b = follow-append id msgs ys b
follow-append id (add_phys i t m ∷ msgs) ys b = follow-append id msgs ys b
follow-append id (del_phys i ∷ msgs) ys b = follow-append id msgs ys b
follow-append id (force_state i st ∷ msgs) ys b = follow-append id msgs ys b

pub init-Inv :
    (spawn : Matrix) → Inv (record { server = Server.init spawn; physics = init; pending = [] })
unfolding Server.init init follow lookup
init-Inv spawn = record {
  ids = Identifiers.init-Inv spawn;
  clean = tt;
  alive = λ id e. cc;
  owned = λ c id h ne. cc;
}
