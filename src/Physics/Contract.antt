-- ===== src/Physics/Contract.antt =====
-- core/physicsiface.hpp: what the server relies on of an engine, as a record of operations and laws; and
-- that `BtPhysics` is such an engine.
use quintses.Common.{
  ℕ, ◌≡◌, refl, Bool, true, Option, none, some, arith, ◌==◌, if◌then◌else◌, Option-cases, inl, inr,
}
use quintses.Common.Map.{lookup, erase, lookup-assign, lookup-erase, has}
use quintses.Socket.{Result, ok}
use quintses.Messages.Server.{ServerMsg, Matrix, Text}
use quintses.PhysicsIface.{add_physical, del_physical, set_input_state}
use quintses.Server.{LocalServer}
use quintses.Physics.{
  BtPhysics, remove, parse_message, set_input_state_callback, add_character, del_character,
}
use quintses.Physics.Run.Round.{state_of, steered, callback-state_of}

-- `character` is the input state of a character that is there; `deliver` is a message of the queue.
pub record PhysicsIface : Type 1 where
  pub Engine : Type 0
  pub character : ℕ → Engine → Option ℕ
  pub object : ℕ → Engine → Bool
  pub deliver : ServerMsg → LocalServer → Engine → Result (LocalServer × Engine)
  pub set_input_callback : ℕ → ℕ → Engine → Engine
  pub adds :
      (id : ℕ) (t : Text) (m : Matrix) (s : LocalServer) (e : Engine)
      → (e' : Engine) × (deliver (add_physical id t m true) s e ≡ ok (s, e'))
        × ((i : ℕ) → character i e' ≡ (if id == i then some 0 else character i e))
        × ((i : ℕ) → object i e' ≡ object i e)
  pub deletes :
      (id st : ℕ) (s : LocalServer) (e : Engine)
      → character id e ≡ some st
      → (e' : Engine) × (deliver (del_physical id true) s e ≡ ok (s, e'))
        × ((i : ℕ) → character i e' ≡ (if id == i then none else character i e))
        × ((i : ℕ) → object i e' ≡ object i e)
  pub sets :
      (id st i : ℕ) (e : Engine)
      → character i (set_input_callback id st e) ≡ steered (id == i) st (character i e)
  pub asynchronous :
      (id st : ℕ) (s : LocalServer) (e : Engine)
      → deliver (set_input_state id st) s e ≡ ok (s, set_input_callback id st e)

pub bt_adds :
    (id : ℕ) (t : Text) (m : Matrix) (s : LocalServer) (p : BtPhysics)
    → (p' : BtPhysics) × (parse_message (add_physical id t m true) s p ≡ ok (s, p'))
      × ((i : ℕ) → state_of i p'.characters ≡ (if id == i then some 0 else state_of i p.characters))
      × ((i : ℕ) → has i p'.objects ≡ has i p.objects)
unfolding parse_message add_physical add_character
bt_adds id t m s p = (
  add_character id m p,
  refl,
  λ i. ground (arith, lookup-assign id (record { transform = m; state = 0 }) i p.characters),
  λ i. refl,
)

pub bt_deletes :
    (id st : ℕ) (s : LocalServer) (p : BtPhysics)
    → state_of id p.characters ≡ some st
    → (p' : BtPhysics) × (parse_message (del_physical id true) s p ≡ ok (s, p'))
      × ((i : ℕ) → state_of i p'.characters ≡ (if id == i then none else state_of i p.characters))
      × ((i : ℕ) → has i p'.objects ≡ has i p.objects)
unfolding parse_message del_physical del_character
bt_deletes id st s p h = elim (Option-cases (lookup id p.characters)) [
  | inl e ↦ absurd (ground arith)
  | inr (character, e) ↦ (
    record p {
      characters = erase id p.characters;
      world = record (p.world) {
        ghosts = remove id p.world.ghosts;
        actions = remove id p.world.actions;
      };
    },
    rw (e, del_character) refl,
    λ i. ground (arith, lookup-erase id i p.characters),
    λ i. refl,
  )
]

pub bt_asynchronous :
    (id st : ℕ) (s : LocalServer) (p : BtPhysics)
    → parse_message (set_input_state id st) s p ≡ ok (s, set_input_state_callback id st p)
unfolding parse_message set_input_state
bt_asynchronous id st s p = refl

abbrev pub bt_physics : PhysicsIface
bt_physics = record {
  Engine = BtPhysics;
  character = λ i p. state_of i p.characters;
  object = λ i p. has i p.objects;
  deliver = parse_message;
  set_input_callback = set_input_state_callback;
  adds = bt_adds;
  deletes = bt_deletes;
  sets = callback-state_of;
  asynchronous = bt_asynchronous;
}
