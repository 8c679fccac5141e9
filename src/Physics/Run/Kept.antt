-- ===== src/Physics/Run/Kept.antt =====
-- A round of the loop of `run` and what is registered with the bullet world.
use quintses.Common.{ℕ, ◌≡◌, ◌∙◌, List, [], ◌∷◌, arith, inl, inr}
use quintses.Common.Map.{Map, has}
use quintses.Socket.{Result, Result-cases, ok, err}
use quintses.Messages.Server.{ServerMsg}
use quintses.Server.{
  LocalServer, Effect, to_client, to_physics, set_input, closes, finish_physics, run_tick_callbacks,
}
use quintses.Physics.{
  BtPhysics, CharacterObject, parse_all, parse_message, set_input_state_callback,
}
use quintses.Physics.Registered.{
  IsRegistered, IsNew, parse_message-IsRegistered, callback-IsRegistered,
}
use quintses.Physics.Run.{Bullet, Running, update_characters, moved, apply_inputs, advance, round}
use quintses.Physics.Run.Round.{state_of, moved-state_of, update_characters-state_of}

-- A property of the value, if there is one.
abbrev pub OnOk {ℓ} : {A : Type ℓ} → (A → Type 0) → Result A → Type 0
OnOk P (err e) = Unit
OnOk P (ok a) = P a

-- No message of a batch adds an object under an identifier in use.
abbrev pub IsFresh : List ServerMsg → LocalServer → BtPhysics → Type 0
IsFresh [] s p = Unit
IsFresh (msg ∷ msgs) s p =
    IsNew msg p × OnOk (λ (s', p'). IsFresh msgs s' p') (parse_message msg s p)

pub parse_all-IsRegistered :
    (msgs : List ServerMsg) (s : LocalServer) (p : BtPhysics)
    → IsRegistered p
    → IsFresh msgs s p
    → OnOk (λ (s', p'). IsRegistered p') (parse_all msgs s p)
unfolding parse_all
parse_all-IsRegistered [] s p r fresh = r
parse_all-IsRegistered (msg ∷ msgs) s p r (new, fresh) =
    elim (Result-cases (parse_message msg s p)) [
      | inl (e, k) ↦ rw k tt
      | inr ((s1, p1), k) ↦ rw k (
          parse_all-IsRegistered msgs s1 p1 (parse_message-IsRegistered msg s r new k)
            (rw k at fresh))
    ]

has-state_of :
    (i : ℕ) (m m' : Map CharacterObject) → state_of i m ≡ state_of i m' → has i m ≡ has i m'
has-state_of i m m' h = ground (arith, h)

module _ (b : Bullet) where
  moving-IsRegistered :
      (p : BtPhysics) (sim sim' : b.Simulation)
      → IsRegistered p
      → IsRegistered
          (record p { characters = moved b sim' (update_characters b p.characters sim).0 })
  moving-IsRegistered p sim sim' r =
      let walking = (update_characters b p.characters sim).0 in
      let same : (i : ℕ) → has i (moved b sim' walking) ≡ has i p.characters = λ i.
        has-state_of i (moved b sim' walking) p.characters
          (moved-state_of b sim' i walking ∙ update_characters-state_of b i p.characters sim) in
      record {
        bodies = r.bodies;
        ghosts = λ i. ground (arith, r.ghosts i, same i);
        actions = λ i. ground (arith, r.actions i, same i);
      }

  apply_inputs-IsRegistered :
      (es : List Effect) (p : BtPhysics) → IsRegistered p → IsRegistered (apply_inputs b es p)
  unfolding apply_inputs
  apply_inputs-IsRegistered [] p r = r
  apply_inputs-IsRegistered (set_input id st ∷ es) p r =
      apply_inputs-IsRegistered es (set_input_state_callback id st p)
        (callback-IsRegistered p r id st)
  apply_inputs-IsRegistered (to_client c m ∷ es) p r = apply_inputs-IsRegistered es p r
  apply_inputs-IsRegistered (to_physics m ∷ es) p r = apply_inputs-IsRegistered es p r
  apply_inputs-IsRegistered (closes c ∷ es) p r = apply_inputs-IsRegistered es p r
  apply_inputs-IsRegistered (finish_physics ∷ es) p r = apply_inputs-IsRegistered es p r

  -- A round whose messages add no object under an identifier in use, if it does not fault, keeps
  -- exactly the objects of the engine registered, each once.
  pub round-IsRegistered :
      (msgs : List ServerMsg) (r : Running b)
      → IsRegistered r.physics
      → IsFresh msgs r.server r.physics
      → OnOk (λ (r', out). IsRegistered r'.physics) (round b msgs r)
  unfolding round advance
  round-IsRegistered msgs r registered fresh =
      let parsed = parse_all-IsRegistered msgs r.server r.physics registered fresh in
      elim (Result-cases (parse_all msgs r.server r.physics)) [
        | inl (e, k) ↦ rw (k, round) tt
        | inr ((s, p), k) ↦
            let (walking, sim') = update_characters b p.characters r.simulation in
            let sim'' = b.step_simulation walking sim' in
            rw (k, round)
              (apply_inputs-IsRegistered (run_tick_callbacks s).1
                (record p { characters = moved b sim'' walking })
                (moving-IsRegistered p r.simulation sim'' (rw k at parsed)))
      ]
