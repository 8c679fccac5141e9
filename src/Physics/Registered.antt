-- ===== src/Physics/Registered.antt =====
-- The objects of the physics engine and what is registered with the bullet world.
use mathlib.Core.Path.{subst}
use quintses.Common.{
  ℕ, ◌+◌, ◌-◌, ◌≡◌, refl, Bool, true, false, List, [], ◌∷◌, arith, ◌==◌, if◌then◌else◌,
  Option-cases, inl, inr,
}
use quintses.Common.Map.{Map, has, lookup, assign, lookup-assign, has-erase}
use quintses.Socket.{Result, ok}
use quintses.Messages.Server.{
  ServerMsg, Matrix, Text, shutdown, input, load_player, add_phys, add_char, del_phys, del_char,
  force_state,
}
use quintses.Server.{LocalServer}
use quintses.Physics.{
  BtPhysics, init, remove, find_plane, planes, set_input_state_callback, add_object, add_character,
  del_object, del_character, parse_message, with_server,
}

unfoldable pub count : ℕ → List ℕ → ℕ
count i [] = 0
count i (j ∷ is) = (if j == i then 1 else 0) + count i is

pub count-remove :
    (i k : ℕ) (is : List ℕ)
    → count k (remove i is) ≡ (if i == k then count k is - 1 else count k is)
unfolding count remove
count-remove i k [] = ground arith
count-remove i k (j ∷ is) = ground (arith, count-remove i k is)

abbrev pub once : Bool → ℕ
once b = if b then 1 else 0

-- Every object is registered once, and nothing else is registered.
pub record IsRegistered (p : BtPhysics) : Type 0 where
  pub bodies : (i : ℕ) → count i p.world.bodies ≡ once (has i p.objects)
  pub ghosts : (i : ℕ) → count i p.world.ghosts ≡ once (has i p.characters)
  pub actions : (i : ℕ) → count i p.world.actions ≡ once (has i p.characters)

pub init-IsRegistered : IsRegistered init
unfolding init count lookup
init-IsRegistered = record { bodies = λ i. refl; ghosts = λ i. refl; actions = λ i. refl }

pub has-assign {ℓ} :
    {V : Type ℓ} (k : ℕ) (v : V) (m : Map V) (i : ℕ)
    → has i (assign k v m) ≡ (if k == i then true else has i m)
has-assign k v m i = ground (arith, lookup-assign k v i m)

same :
    (s : LocalServer) (p : BtPhysics) {s' : LocalServer} {p' : BtPhysics}
    → ◌≡◌ {A = Result (LocalServer × BtPhysics)} (ok (s, p)) (ok (s', p'))
    → p ≡ p'
same s p h = ground arith

pub with_server-ok :
    (s : LocalServer) (r : Result BtPhysics) {s' : LocalServer} {p : BtPhysics}
    → with_server s r ≡ ok (s', p)
    → r ≡ ok p
with_server-ok s r h = ground arith

-- A message adds no object under an identifier that is in use.
abbrev pub IsNew : ServerMsg → BtPhysics → Type 0
IsNew (add_phys id t m) p = has id p.objects ≡ false
IsNew (add_char id t m) p = has id p.characters ≡ false
IsNew msg p = Unit

module _ (p : BtPhysics) (r : IsRegistered p) where
  pub callback-IsRegistered : (id st : ℕ) → IsRegistered (set_input_state_callback id st p)
  unfolding set_input_state_callback
  callback-IsRegistered id st = elim (Option-cases (lookup id p.characters)) [
    | inl e ↦ rw (e, set_input_state_callback) r
    | inr (character, e) ↦
        rw (e, set_input_state_callback)
          (record {
            bodies = r.bodies;
            ghosts = λ i.
                ground (
                  arith,
                  r.ghosts i,
                  has-assign id (record character { state = st }) p.characters i,
                );
            actions = λ i. ground (
              arith,
              r.actions i,
              has-assign id (record character { state = st }) p.characters i,
            );
          })
  ]

  add_object-IsRegistered :
      (id : ℕ) (t : Text) (m : Matrix)
      → has id p.objects ≡ false
      → IsRegistered (add_object id t m p)
  unfolding add_object count
  add_object-IsRegistered id t m new = elim (Option-cases (find_plane t planes)) [
    | inl e ↦ rw (e, add_object) r
    | inr (normal, e) ↦
        rw (e, add_object)
          (record {
            bodies = λ i. ground (
              arith,
              r.bodies i,
              r.bodies id,
              has-assign id (record { normal = normal; transform = m }) p.objects i,
            );
            ghosts = r.ghosts;
            actions = r.actions;
          })
  ]

  add_character-IsRegistered :
      (id : ℕ) (m : Matrix) → has id p.characters ≡ false → IsRegistered (add_character id m p)
  unfolding add_character count
  add_character-IsRegistered id m new = record {
    bodies = r.bodies;
    ghosts = λ i. ground (
      arith,
      r.ghosts i,
      r.ghosts id,
      has-assign id (record { transform = m; state = 0 }) p.characters i,
    );
    actions = λ i. ground (
      arith,
      r.actions i,
      r.actions id,
      has-assign id (record { transform = m; state = 0 }) p.characters i,
    );
  }

  del_object-IsRegistered : (id : ℕ) {q : BtPhysics} → del_object id p ≡ ok q → IsRegistered q
  unfolding del_object
  del_object-IsRegistered id {q} h = record {
    bodies =
        λ i. ground (arith, r.bodies i, count-remove id i p.world.bodies, has-erase id p.objects i);
    ghosts = λ i. ground (arith, r.ghosts i);
    actions = λ i. ground (arith, r.actions i);
  }

  del_character-IsRegistered : (id : ℕ) {q : BtPhysics} → del_character id p ≡ ok q → IsRegistered q
  unfolding del_character
  del_character-IsRegistered id {q} h = record {
    bodies = λ i. ground (arith, r.bodies i);
    ghosts = λ i.
        ground (arith, r.ghosts i, count-remove id i p.world.ghosts, has-erase id p.characters i);
    actions = λ i.
        ground (arith, r.actions i, count-remove id i p.world.actions, has-erase id p.characters i);
  }

-- A message that does not fault and adds nothing under an identifier in use keeps exactly the objects
-- of the engine registered with the bullet world, each once.
pub parse_message-IsRegistered :
    (msg : ServerMsg) (s : LocalServer) {s' : LocalServer} {p p' : BtPhysics}
    → IsRegistered p
    → IsNew msg p
    → parse_message msg s p ≡ ok (s', p')
    → IsRegistered p'
unfolding parse_message
parse_message-IsRegistered (shutdown c) s {p} r new h = subst IsRegistered (same _ _ h) r
parse_message-IsRegistered (load_player c t) s {p} r new h = subst IsRegistered (same _ _ h) r
parse_message-IsRegistered (input c st) s {p} r new h =
    subst IsRegistered (same _ _ h) (callback-IsRegistered p r _ st)
parse_message-IsRegistered (add_phys id t m) s {p} r new h =
    subst IsRegistered (same _ _ h) (add_object-IsRegistered p r id t m new)
parse_message-IsRegistered (add_char id t m) s {p} r new h =
    subst IsRegistered (same _ _ h) (add_character-IsRegistered p r id m new)
parse_message-IsRegistered (force_state id st) s {p} r new h =
    subst IsRegistered (same _ _ h) (callback-IsRegistered p r id st)
parse_message-IsRegistered (del_phys id) s {p} r new h =
    del_object-IsRegistered p r id (with_server-ok s _ h)
parse_message-IsRegistered (del_char id) s {p} r new h =
    del_character-IsRegistered p r id (with_server-ok s _ h)
