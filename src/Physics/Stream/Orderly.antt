-- ===== src/Physics/Stream/Orderly.antt =====
-- The calls of the server and the identifiers that they give to the engine.
use quintses.Common.{
  ℕ, ◌+◌, ◌^◌, ◌<◌, ◌≤◌, ◌≡◌, refl, List, [], ◌∷◌, ◌++◌, arith, ◌==◌, Bool-cases, inl, inr,
}
use quintses.Common.Map.{has, index}
use quintses.Messages.Server.{ServerMsg, Matrix, Text, input, load_player, add_phys, add_char}
use quintses.PhysicsIface.{del_physical}
use quintses.Server.{
  LocalServer, Effect, add_client, remove_client, spawn_baddie, add_blocker, run_tick_callbacks,
  get_client_id, handle,
}
use quintses.Server
use quintses.Physics.{BtPhysics}
use quintses.Physics.Registered.{IsRegistered, once}
use quintses.Physics.Stream.{physics_msgs, Game, called}
use quintses.Physics.Stream.Calls.{
  physics_msgs-append, physics_msgs-broadcast, physics_msgs-player_drawables,
  physics_msgs-baddie_drawables, physics_msgs-set_inputs,
}

-- How often a queue adds an object or a character under an identifier.
unfoldable pub adding : ℕ → List ServerMsg → ℕ
adding i [] = 0
adding i (add_phys j t m ∷ msgs) = once (j == i) + adding i msgs
adding i (add_char j t m ∷ msgs) = once (j == i) + adding i msgs
adding i (msg ∷ msgs) = adding i msgs

pub adding-append :
    (i : ℕ) (xs ys : List ServerMsg) → adding i (xs ++ ys) ≡ adding i xs + adding i ys
unfolding adding
adding-append i [] ys = omega arith
adding-append i (msg ∷ xs) ys = ground (arith, adding-append i xs ys)

-- How often an identifier stands in an engine.
abbrev pub present : ℕ → BtPhysics → ℕ
present i p = once (has i p.objects) + once (has i p.characters)

-- No identifier is used twice, and none that has not been given out.
pub record Orderly (g : Game) : Type 0 where
  pub single : (i : ℕ) → adding i g.pending + present i g.physics ≤ 1
  pub fresh : (i : ℕ) → g.server.next_id ≤ i → adding i g.pending + present i g.physics ≡ 0
  pub registered : IsRegistered g.physics

-- A call that adds nothing.
called_quiet :
    (g : Game) (r : LocalServer × List Effect)
    → Orderly g
    → r.0.next_id ≡ g.server.next_id
    → ((i : ℕ) → adding i (physics_msgs r.1) ≡ 0)
    → Orderly (called g r)
called_quiet g r o same none = record {
  single = λ i. omega (arith, adding-append i g.pending (physics_msgs r.1), none i, o.single i);
  fresh = λ i h.
      omega (arith, adding-append i g.pending (physics_msgs r.1), none i, o.fresh i, same, h);
  registered = o.registered;
}

-- A call that adds something under the next identifier.
called_adds :
    (g : Game) (r : LocalServer × List Effect)
    → Orderly g
    → r.0.next_id ≡ g.server.next_id + 1
    → ((i : ℕ) → adding i (physics_msgs r.1) ≡ once (g.server.next_id == i))
    → Orderly (called g r)
called_adds g r o next one = record {
  single = λ i.
      ground (arith, adding-append i g.pending (physics_msgs r.1), one i, o.single i, o.fresh i);
  fresh = λ i h.
      ground (arith, adding-append i g.pending (physics_msgs r.1), one i, o.fresh i, next, h);
  registered = o.registered;
}

module _ (g : Game) (o : Orderly g) where
  pub adds-Orderly : (c : ℕ) → Orderly (called g (add_client c g.server))
  unfolding add_client adding
  adds-Orderly c = called_quiet g (add_client c g.server) o refl (λ i.
      rw (physics_msgs-append, physics_msgs-player_drawables, physics_msgs-baddie_drawables) refl)

  pub ticks-Orderly : Orderly (called g (run_tick_callbacks g.server))
  unfolding run_tick_callbacks adding
  ticks-Orderly =
      called_quiet g (run_tick_callbacks g.server) o refl (λ i. rw physics_msgs-set_inputs refl)

  pub inputs-Orderly : (c st : ℕ) → Orderly (called g (handle (input c st) g.server))
  unfolding handle adding physics_msgs
  inputs-Orderly c st = called_quiet g (handle (input c st) g.server) o refl (λ i. refl)

  pub removes-Orderly : (c : ℕ) → Orderly (called g (remove_client c g.server))
  unfolding remove_client adding physics_msgs del_physical
  removes-Orderly c = called_quiet g (remove_client c g.server) o refl (λ i.
      elim (Bool-cases ((index c g.server.clients).0 == 0)) [
        | inl nil ↦ rw nil refl
        | inr ne ↦ rw (ne, physics_msgs-append, physics_msgs-broadcast, physics_msgs-broadcast) refl
      ])

  pub loads-Orderly :
      (c : ℕ) (t : Text)
      → g.server.next_id + 1 < 2 ^ 32
      → Orderly (called g (handle (load_player c t) g.server))
  unfolding handle Server.load_player Server.get_next_identifier adding physics_msgs
      quintses.PhysicsIface.add_physical
  loads-Orderly c t room =
      called_adds g (handle (load_player c t) g.server) o (omega (arith, room))
        (λ i. rw physics_msgs-broadcast (omega arith))

  pub spawns-Orderly :
      (t : Text) (m : Matrix)
      → g.server.next_id + 1 < 2 ^ 32
      → Orderly (called g (spawn_baddie t m g.server))
  unfolding spawn_baddie Server.get_next_identifier adding physics_msgs
      quintses.PhysicsIface.add_physical
  spawns-Orderly t m room =
      called_adds g (spawn_baddie t m g.server) o (omega (arith, room)) (λ i. omega arith)

  pub blocks-Orderly :
      (t : Text) (m : Matrix)
      → g.server.next_id + 1 < 2 ^ 32
      → Orderly (called g (add_blocker t m g.server))
  unfolding add_blocker Server.get_next_identifier adding physics_msgs
      quintses.PhysicsIface.add_physical
  blocks-Orderly t m room =
      called_adds g (add_blocker t m g.server) o (omega (arith, room)) (λ i. omega arith)
