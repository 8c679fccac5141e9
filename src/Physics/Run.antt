-- ===== src/Physics/Run.antt =====
-- `BtPhysics::run` and `updateCharacterObjects`. Of bullet the code uses a simulation with the
-- controllers in it, by the identifiers of their characters, and vectors; these are the parameter
-- `Bullet`.
pub mod Walking
pub mod Round
pub mod Ending
pub mod Kept
use quintses.Common.{
  ℕ, ◌^◌, ◌/◌, ◌%◌, Bool, true, false, ◌&&◌, Option, none, some, List, [], ◌∷◌, ◌++◌, ◌==◌,
  if◌then◌else◌,
}
use quintses.Common.Map.{Map, keys}
use quintses.Socket.{Result, ok, err}
use quintses.Messages.Server.{ServerMsg, Matrix}
use quintses.Server.{
  LocalServer, Effect, set_input, strafe_left, strafe_right, run_tick_callbacks,
  push_client_transforms,
}
use quintses.Physics.{
  BtPhysics, PhysicsObject, CharacterObject, World, remove, set_input_state_callback, parse_all,
}

pub record Bullet : Type 1 where
  pub Vector : Type 0
  pub nought : Vector
  pub plus : Vector → Vector → Vector
  pub minus : Vector → Vector → Vector
  -- times 7.f / 30.f
  pub at_speed : Vector → Vector
  -- the normalised rows of the basis of a transform
  pub side : Matrix → Vector
  pub forward : Matrix → Vector
  -- a transform whose basis is turned by 0.01 or -0.01 round the y axis
  pub turned_left : Matrix → Matrix
  pub turned_right : Matrix → Matrix
  pub Simulation : Type 0
  pub can_jump : ℕ → Simulation → Bool
  pub jump : ℕ → Simulation → Simulation
  pub set_walk_direction : ℕ → Vector → Simulation → Simulation
  -- `stepSimulation`, from the transforms of the ghosts to those behind the step
  pub step_simulation : Map CharacterObject → Simulation → Simulation
  pub world_transform : ℕ → Simulation → Matrix

-- The other members of `ServerInputMsg::State`.
abbrev pub walk_forward : ℕ
walk_forward = 2 ^ 2

abbrev pub walk_reverse : ℕ
walk_reverse = 2 ^ 3

abbrev pub turn_left : ℕ
turn_left = 2 ^ 4

abbrev pub turn_right : ℕ
turn_right = 2 ^ 5

abbrev pub jump_flag : ℕ
jump_flag = 2 ^ 6

-- `m_state & flag`, for a power of two
abbrev pub has_flag : ℕ → ℕ → Bool
has_flag flag state = (state / flag) % 2 == 1

module _ (b : Bullet) where
  open b use {
    Vector, nought, plus, minus, at_speed, side, forward, turned_left, turned_right, Simulation,
    can_jump, jump, set_walk_direction, step_simulation, world_transform,
  }

  -- The four additions to `direction`.
  unfoldable pub direction : ℕ → Vector → Vector → Vector
  direction state across ahead =
      let d1 = if has_flag strafe_left state then minus nought across else nought in
      let d2 = if has_flag strafe_right state then plus d1 across else d1 in
      let d3 = if has_flag walk_forward state then plus d2 ahead else d2 in
      if has_flag walk_reverse state then minus d3 ahead else d3

  unfoldable pub turn : ℕ → Matrix → Matrix
  turn state t =
      let t' = if has_flag turn_left state then turned_left t else t in
      if has_flag turn_right state then turned_right t' else t'

  -- The body of the loop of `updateCharacterObjects`; the axes are those from before the turn.
  unfoldable pub update_character : ℕ → CharacterObject → Simulation → CharacterObject × Simulation
  unfolding direction turn
  update_character id c sim =
      let sim' = if has_flag jump_flag c.state && can_jump id sim then jump id sim else sim in
      let walk = at_speed (direction c.state (side c.transform) (forward c.transform)) in
      if can_jump id sim
      then (record c { transform = turn c.state c.transform }, set_walk_direction id walk sim')
      else (c, sim)

  unfoldable pub update_characters :
      Map CharacterObject → Simulation → Map CharacterObject × Simulation
  unfolding update_character
  update_characters [] sim = ([], sim)
  update_characters ((id, c) ∷ m) sim =
      let (c', sim') = update_character id c sim in
      let (m', sim'') = update_characters m sim' in ((id, c') ∷ m', sim'')

  -- The transforms of the ghosts behind a step of the simulation.
  unfoldable pub moved : Simulation → Map CharacterObject → Map CharacterObject
  moved sim [] = []
  moved sim ((id, c) ∷ m) = (id, record c { transform = world_transform id sim }) ∷ moved sim m

  -- The list that `run` gathers for the clients.
  unfoldable pub transforms : Map CharacterObject → List (ℕ × Matrix)
  transforms [] = []
  transforms ((id, c) ∷ m) = (id, c.transform) ∷ transforms m

  -- The calls of `setInputStateCallback` among the calls of the server, which act at once.
  unfoldable pub apply_inputs : List Effect → BtPhysics → BtPhysics
  apply_inputs [] p = p
  apply_inputs (set_input id state ∷ es) p = apply_inputs es (set_input_state_callback id state p)
  apply_inputs (e ∷ es) p = apply_inputs es p

  -- The server, the engine and the simulation, and the calls of clients.
  pub record Running : Type 0 where
    pub server : LocalServer
    pub physics : BtPhysics
    pub simulation : Simulation

  -- A round of the loop of `run` behind `parseMessage`.
  unfoldable pub advance : LocalServer → BtPhysics → Simulation → Running × List Effect
  unfolding update_characters moved transforms apply_inputs
  advance s p sim =
      let (walking, sim') = update_characters p.characters sim in
      let sim'' = step_simulation walking sim' in
      let p' = record p { characters = moved sim'' walking } in
      let (s', calls) = run_tick_callbacks s in
      (
        record { server = s'; physics = apply_inputs calls p'; simulation = sim'' },
        push_client_transforms (transforms p'.characters) s',
      )

  -- A round of the loop of `run`, on the messages that `try_pop` returns.
  unfoldable pub round : List ServerMsg → Running → Result (Running × List Effect)
  unfolding advance
  round msgs r = elim (parse_all msgs r.server r.physics) [
    | ok (s, p) ↦ ok (advance s p r.simulation)
    | err e ↦ err e
  ]

-- The two loops of `run` behind its loop: each object is taken from the bullet world.
unfoldable pub remove_all : List ℕ → List ℕ → List ℕ
unfolding remove
remove_all [] registered = registered
remove_all (id ∷ ids) registered = remove_all ids (remove id registered)

unfoldable pub close_world : BtPhysics → World
unfolding remove_all
close_world p = record {
  bodies = remove_all (keys p.objects) p.world.bodies;
  ghosts = remove_all (keys p.characters) p.world.ghosts;
  actions = remove_all (keys p.characters) p.world.actions;
}
