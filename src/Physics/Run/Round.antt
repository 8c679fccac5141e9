-- ===== src/Physics/Run/Round.antt =====
-- A round of the loop of `run`: what the clients are sent, and which input state each character has.
use mathlib.Core.Path.{subst}
use quintses.Common.{
  ℕ, ◌≡◌, refl, sym, ap, ◌∙◌, Bool, false, ◌||◌, ◌&&◌, ◌==◌, if◌then◌else◌, Option, none, some,
  List, [], ◌∷◌, arith, Option-cases, inl, inr,
}
use quintses.Common.Map.{Map, lookup, keys, has, lookup-assign}
use quintses.Socket.{Result-cases, Result, ok}
use quintses.Messages.Server.{ServerMsg, Matrix}
use quintses.Server.{
  LocalServer, BaddieData, Effect, set_inputs, baddie_state, next_tick, run_tick_callbacks,
}
use quintses.Server.Delivery.{sent_to, trans_msgs, push_client_transforms-delivery}
use quintses.Server.Identifiers.{is_baddie, Inv, get_client_id-Inv}
use quintses.Physics.{
  with_server, BtPhysics, CharacterObject, parse_all, parse_message, set_input_state_callback,
}
use quintses.Physics.Run.{
  Bullet, Running, update_character, update_characters, moved, transforms, apply_inputs, advance,
  round,
}

-- The input state of a character.
abbrev pub state_of : ℕ → Map CharacterObject → Option ℕ
state_of id m = elim (lookup id m) [ none ↦ none | some c ↦ some c.state ]

-- The input state under a call of `setInputStateCallback` for each baddie.
abbrev pub steered : Bool → ℕ → Option ℕ → Option ℕ
steered hit state none = none
steered hit state (some old) = some (if hit then state else old)

pub callback-state_of :
    (id st i : ℕ) (p : BtPhysics)
    → state_of i (set_input_state_callback id st p).characters
      ≡ steered (id == i) st (state_of i p.characters)
unfolding set_input_state_callback
callback-state_of id st i p = elim (Option-cases (lookup id p.characters)) [
  | inl e ↦ ground (arith, e)
  | inr (c, e) ↦ ground (arith, e, lookup-assign id (record c { state = st }) i p.characters)
]

steered_miss : (st : ℕ) (o : Option ℕ) → steered false st o ≡ o
steered_miss st none = refl
steered_miss st (some old) = refl

steered-steered :
    (a b : Bool) (st : ℕ) (o : Option ℕ) → steered b st (steered a st o) ≡ steered (a || b) st o
steered-steered a b st none = refl
steered-steered a b st (some old) = ground arith

server_same :
    {s s' : LocalServer} {p p' : BtPhysics}
    → ◌≡◌ {A = Result (LocalServer × BtPhysics)} (ok (s, p)) (ok (s', p'))
    → s ≡ s'
server_same h = ground arith

pub with_server_same :
    (s : LocalServer) (r : Result BtPhysics) {s' : LocalServer} {p' : BtPhysics}
    → with_server s r ≡ ok (s', p')
    → s ≡ s'
with_server_same s r h = ground arith

parse_message-Inv :
    (msg : ServerMsg) (s : LocalServer) (p : BtPhysics) {s' : LocalServer} {p' : BtPhysics}
    → Inv s
    → parse_message msg s p ≡ ok (s', p')
    → Inv s'
unfolding parse_message
parse_message-Inv (ServerMsg.input c st) s p inv h =
    subst Inv (server_same h) (get_client_id-Inv inv c)
parse_message-Inv (ServerMsg.shutdown c) s p inv h = subst Inv (server_same h) inv
parse_message-Inv (ServerMsg.load_player c t) s p inv h = subst Inv (server_same h) inv
parse_message-Inv (ServerMsg.add_phys id t m) s p inv h = subst Inv (server_same h) inv
parse_message-Inv (ServerMsg.add_char id t m) s p inv h = subst Inv (server_same h) inv
parse_message-Inv (ServerMsg.force_state id st) s p inv h = subst Inv (server_same h) inv
parse_message-Inv (ServerMsg.del_phys id) s p inv h = subst Inv (with_server_same s _ h) inv
parse_message-Inv (ServerMsg.del_char id) s p inv h = subst Inv (with_server_same s _ h) inv

parse_all-Inv :
    (msgs : List ServerMsg) (s : LocalServer) (p : BtPhysics) {s' : LocalServer} {p' : BtPhysics}
    → Inv s
    → parse_all msgs s p ≡ ok (s', p')
    → Inv s'
unfolding parse_all
parse_all-Inv [] s p inv h = subst Inv (server_same h) inv
parse_all-Inv (msg ∷ msgs) s p inv h = elim (Result-cases (parse_message msg s p)) [
  | inr ((s1, p1), e) ↦ parse_all-Inv msgs s1 p1 (parse_message-Inv msg s p inv e) (rw e at h)
  | inl (fault, e) ↦ absurd (ground (arith, rw e at h))
]

module _ (b : Bullet) where
  apply_inputs-state_of :
      (st i : ℕ) (bs : List BaddieData) (p : BtPhysics)
      → state_of i (apply_inputs b (set_inputs st bs) p).characters
        ≡ steered (is_baddie i bs) st (state_of i p.characters)
  unfolding apply_inputs set_inputs
  apply_inputs-state_of st i [] p = sym (steered_miss st (state_of i p.characters))
  apply_inputs-state_of st i (x ∷ bs) p =
      apply_inputs-state_of st i bs (set_input_state_callback x.id st p)
      ∙ ap (steered (is_baddie i bs) st) (callback-state_of x.id st i p)
      ∙ steered-steered (x.id == i) (is_baddie i bs) st (state_of i p.characters)

  pub moved-state_of :
      (sim : b.Simulation) (i : ℕ) (m : Map CharacterObject)
      → state_of i (moved b sim m) ≡ state_of i m
  unfolding moved lookup
  moved-state_of sim i [] = refl
  moved-state_of sim i ((id, c) ∷ m) = ground (arith, moved-state_of sim i m)

  update_character-state :
      (id : ℕ) (c : CharacterObject) (sim : b.Simulation)
      → (update_character b id c sim).0.state ≡ c.state
  unfolding update_character
  update_character-state id c sim = ground arith

  pub update_characters-state_of :
      (i : ℕ) (m : Map CharacterObject) (sim : b.Simulation)
      → state_of i (update_characters b m sim).0 ≡ state_of i m
  unfolding update_characters lookup
  update_characters-state_of i [] sim = refl
  update_characters-state_of i ((id, c) ∷ m) sim = ground (
    arith,
    update_character-state id c sim,
    update_characters-state_of i m (update_character b id c sim).1,
  )

  keys-update_characters :
      (m : Map CharacterObject) (sim : b.Simulation) → keys (update_characters b m sim).0 ≡ keys m
  unfolding update_characters keys
  keys-update_characters [] sim = refl
  keys-update_characters ((id, c) ∷ m) sim = ap (◌∷◌ id) (keys-update_characters m _)

  -- The transforms of the simulation, by the identifiers.
  abbrev pub posed : List ℕ → b.Simulation → List (ℕ × Matrix)
  posed [] sim = []
  posed (id ∷ ids) sim = (id, b.world_transform id sim) ∷ posed ids sim

  transforms-moved :
      (sim : b.Simulation) (m : Map CharacterObject)
      → transforms b (moved b sim m) ≡ posed (keys m) sim
  unfolding transforms moved keys
  transforms-moved sim [] = refl
  transforms-moved sim ((id, c) ∷ m) =
      ap (◌∷◌ (id, b.world_transform id sim)) (transforms-moved sim m)

  -- If a round's messages are all parsed, in a server within its invariant, then the round ends, and a
  -- client that then stands in exactly one list of the server is sent, once for each character and in the
  -- order of their identifiers, the transform that the simulation gives that character behind its step; a
  -- client in no list is sent nothing.
  pub round-delivery :
      (msgs : List ServerMsg) (r : Running b) (s : LocalServer) (p : BtPhysics) (d : ℕ)
      → parse_all msgs r.server r.physics ≡ ok (s, p)
      → Inv r.server
      → (has d s.clients && has d s.lobby_clients) ≡ false
      → (r' : Running b) × (out : List Effect) × (round b msgs r ≡ ok (r', out))
        × (sent_to d out ≡ (
            if has d s.clients || has d s.lobby_clients
            then trans_msgs (posed (keys p.characters) r'.simulation)
            else []))
  unfolding round advance run_tick_callbacks
  round-delivery msgs r s p d h inv apart =
      let after = (parse_all-Inv msgs r.server r.physics inv h) in
      let (walking, sim') = update_characters b p.characters r.simulation in
      let sim'' = b.step_simulation walking sim' in
      (
        (advance b s p r.simulation).0,
        (advance b s p r.simulation).1,
        rw (h, round) refl,
        push_client_transforms-delivery d (transforms b (moved b sim'' walking))
              (run_tick_callbacks s).0 after.clients_rise after.lobby_rises apart
            ∙ ap (λ ts. if has d s.clients || has d s.lobby_clients then trans_msgs ts else [])
                (transforms-moved sim'' walking
                  ∙ ap (λ ids. posed ids sim'') (keys-update_characters p.characters r.simulation)),
      )

  -- If a round's messages are all parsed, then the round ends with a character that is a baddie in
  -- the input state of the server's next tick, and with any other character in the one that the messages
  -- have left it in.
  pub round-steering :
      (msgs : List ServerMsg) (r : Running b) (s : LocalServer) (p : BtPhysics) (i : ℕ)
      → parse_all msgs r.server r.physics ≡ ok (s, p)
      → (r' : Running b) × (out : List Effect) × (round b msgs r ≡ ok (r', out))
        × (state_of i r'.physics.characters
            ≡ steered
                (is_baddie i s.baddies)
                (baddie_state (next_tick s.ticks))
                (state_of i p.characters))
  unfolding round advance run_tick_callbacks
  round-steering msgs r s p i h =
      let (walking, sim') = update_characters b p.characters r.simulation in
      let sim'' = b.step_simulation walking sim' in
      let state = baddie_state (next_tick s.ticks) in
      (
        (advance b s p r.simulation).0,
        (advance b s p r.simulation).1,
        rw (h, round) refl,
        apply_inputs-state_of state i s.baddies (record p { characters = moved b sim'' walking })
            ∙ ap (steered (is_baddie i s.baddies) state) (
                moved-state_of sim'' i walking
                ∙ update_characters-state_of i p.characters r.simulation),
      )
