-- ===== src/Physics/Stream/Calls.antt =====
-- A call of the server keeps the stream of its messages sound.
use quintses.Common.{
  ℕ, ◌+◌, ◌^◌, ◌<◌, ◌≡◌, ◌≢◌, refl, ap, Bool, true, Option, some, none, List, [], ◌∷◌, ◌++◌, arith,
  ◌==◌, Option-cases, Bool-cases, inl, inr, All, All-append, ==_ne,
}
use quintses.Common.Map.{
  Map, has, lookup, index, index-some, index-none, erase_found, insert_found, index_found,
}
use quintses.Messages.Server.{
  ServerMsg, Matrix, Text, input, load_player, add_phys, add_char, del_char,
}
use quintses.Messages.Client.{ClientMsg}
use quintses.PhysicsIface.{add_physical, del_physical}
use quintses.Server.{
  LocalServer, BaddieData, Effect, to_client, to_physics, set_input, add_client, remove_client,
  spawn_baddie, add_blocker, run_tick_callbacks, handle, broadcast, player_drawables,
  baddie_drawables, set_inputs,
}
use quintses.Server
use quintses.Server.Identifiers
use quintses.Server.Identifiers.{step-Inv}
use quintses.Physics.Stream.{physics_msgs, Game, called, follow, follow-append, IsCharacterMsg, Inv}

pub physics_msgs-append :
    (xs ys : List Effect) → physics_msgs (xs ++ ys) ≡ physics_msgs xs ++ physics_msgs ys
unfolding physics_msgs
physics_msgs-append [] ys = refl
physics_msgs-append (to_physics m ∷ xs) ys = ap (λ l. m ∷ l) (physics_msgs-append xs ys)
physics_msgs-append (e ∷ xs) ys = physics_msgs-append xs ys

pub physics_msgs-broadcast : (cs : List ℕ) (m : ClientMsg) → physics_msgs (broadcast cs m) ≡ []
unfolding physics_msgs broadcast
physics_msgs-broadcast [] m = refl
physics_msgs-broadcast (c ∷ cs) m = physics_msgs-broadcast cs m

pub physics_msgs-player_drawables : (c : ℕ) (m : Map ℕ) → physics_msgs (player_drawables c m) ≡ []
unfolding physics_msgs player_drawables
physics_msgs-player_drawables c [] = refl
physics_msgs-player_drawables c ((k, id) ∷ m) = physics_msgs-player_drawables c m

pub physics_msgs-baddie_drawables :
    (c : ℕ) (bs : List BaddieData) → physics_msgs (baddie_drawables c bs) ≡ []
unfolding physics_msgs baddie_drawables
physics_msgs-baddie_drawables c [] = refl
physics_msgs-baddie_drawables c (b ∷ bs) = physics_msgs-baddie_drawables c bs

pub physics_msgs-set_inputs : (st : ℕ) (bs : List BaddieData) → physics_msgs (set_inputs st bs) ≡ []
unfolding physics_msgs set_inputs
physics_msgs-set_inputs st [] = refl
physics_msgs-set_inputs st (b ∷ bs) = physics_msgs-set_inputs st bs

-- The messages of a call, `new`, do what the clients of the server after it need.
record Serves (g : Game) (after : LocalServer) (new : List ServerMsg) : Type 0 where
  clean : All IsCharacterMsg new
  alive :
      (id : ℕ) (b : Bool)
      → follow id g.pending (has id g.physics.characters) ≡ some b
      → follow id new b ≢ none
  owned :
      (c id : ℕ) (b : Bool)
      → lookup c after.clients ≡ some id
      → id ≢ 0
      → follow id g.pending (has id g.physics.characters) ≡ some b
      → follow id new b ≡ some true

called-Inv :
    (g : Game) (r : LocalServer × List Effect)
    → Inv g
    → Identifiers.Inv r.0
    → Serves g r.0 (physics_msgs r.1)
    → Inv (called g r)
called-Inv g r inv ids serves = record {
  ids = ids;
  clean = All-append IsCharacterMsg g.pending (physics_msgs r.1) inv.clean serves.clean;
  alive = λ id e. elim (Option-cases (before id)) [
    | inl n ↦ inv.alive id n
    | inr (b, h) ↦ serves.alive id b h (ground (arith, both id))
  ];
  owned = λ c id found ne. elim (Option-cases (before id)) [
    | inl n ↦ absurd (inv.alive id n)
    | inr (b, h) ↦ ground (arith, both id, serves.owned c id b found ne h)
  ];
}
  where
    before : ℕ → Option Bool
    before id = follow id g.pending (has id g.physics.characters)

    both :
        (id : ℕ)
        → follow id (g.pending ++ physics_msgs r.1) (has id g.physics.characters)
          ≡ elim (before id) [ none ↦ none | some c ↦ follow id (physics_msgs r.1) c ]
    both id = follow-append id g.pending (physics_msgs r.1) (has id g.physics.characters)

-- The clients after a call were clients before, but for new identifiers that are 0.
abbrev Fewer : Game → LocalServer → Type 0
Fewer g s = (c id : ℕ) → lookup c s.clients ≡ some id → id ≢ 0 → lookup c g.server.clients ≡ some id

-- A call that sends the physics engine nothing.
called_quiet :
    (g : Game) (r : LocalServer × List Effect)
    → Inv g
    → Identifiers.Inv r.0
    → physics_msgs r.1 ≡ []
    → Fewer g r.0
    → Inv (called g r)
unfolding follow
called_quiet g r inv ids quiet fewer = called-Inv g r inv ids (
    rw quiet (record {
      clean = tt;
      alive = λ id b h e. cc;
      owned = λ c id b found ne h. ground (arith, inv.owned c id (fewer c id found ne) ne);
    }))

-- A call that sends it one message.
called_one :
    (g : Game) (r : LocalServer × List Effect) (msg : ServerMsg)
    → Inv g
    → Identifiers.Inv r.0
    → physics_msgs r.1 ≡ msg ∷ []
    → Serves g r.0 (msg ∷ [])
    → Inv (called g r)
called_one g r msg inv ids one serves = called-Inv g r inv ids (rw one serves)

module _ (g : Game) (inv : Inv g) where
  pub adds-Inv : (c : ℕ) → Inv (called g (add_client c g.server))
  unfolding add_client
  adds-Inv c =
      called_quiet g (add_client c g.server) inv (Identifiers.add_client-Inv inv.ids c)
        (rw (physics_msgs-append, physics_msgs-player_drawables, physics_msgs-baddie_drawables))
        λ d id found ne. found

  pub ticks-Inv : Inv (called g (run_tick_callbacks g.server))
  unfolding run_tick_callbacks
  ticks-Inv =
      called_quiet g (run_tick_callbacks g.server) inv (Identifiers.run_tick_callbacks-Inv inv.ids)
        (physics_msgs-set_inputs _ _) λ d id found ne. found

  pub inputs-Inv : (c st : ℕ) → Inv (called g (handle (input c st) g.server))
  unfolding handle physics_msgs follow
  inputs-Inv c st =
      called_one g (handle (input c st) g.server) (input c st) inv inv.ids refl (record {
        clean = (tt, tt);
        alive = λ id b h e. cc;
        owned = λ d id b found ne h. ground (arith, inv.owned d id found ne);
      })

  pub loads-Inv :
      (c : ℕ) (t : Text)
      → g.server.next_id + 1 < 2 ^ 32
      → Inv (called g (handle (load_player c t) g.server))
  unfolding handle Server.load_player physics_msgs add_physical follow
  loads-Inv c t room =
      called_one g (handle (load_player c t) g.server)
        (add_char g.server.next_id t g.server.player_spawn) inv
        (Identifiers.load_player-Inv inv.ids c t room) (rw physics_msgs-broadcast)
        (record {
          clean = (tt, tt);
          alive = λ id b h e. cc;
          owned = λ d id b found ne h.
              elim (insert_found c g.server.next_id g.server.clients d id found) [
                | inl old ↦ ground (arith, inv.owned d id old ne)
                | inr new ↦ ground arith
              ];
        })

  pub spawns-Inv :
      (t : Text) (m : Matrix)
      → g.server.next_id + 1 < 2 ^ 32
      → Inv (called g (spawn_baddie t m g.server))
  unfolding spawn_baddie physics_msgs add_physical follow
  spawns-Inv t m room =
      called_one g (spawn_baddie t m g.server) (add_char g.server.next_id t m) inv
        (Identifiers.spawn_baddie-Inv inv.ids t m room) refl
        (record {
          clean = (tt, tt);
          alive = λ id b h e. cc;
          owned = λ d id b found ne h. ground (arith, inv.owned d id found ne);
        })

  pub blocks-Inv :
      (t : Text) (m : Matrix)
      → g.server.next_id + 1 < 2 ^ 32
      → Inv (called g (add_blocker t m g.server))
  unfolding add_blocker physics_msgs add_physical follow
  blocks-Inv t m room =
      called_one g (add_blocker t m g.server) (add_phys g.server.next_id t m) inv
        (Identifiers.add_blocker-Inv inv.ids t m room) refl
        (record {
          clean = (tt, tt);
          alive = λ id b h e. cc;
          owned = λ d id b found ne h. ground (arith, inv.owned d id found ne);
        })

  -- The client has a player: its character is deleted.
  removes_player :
      (c id : ℕ)
      → lookup c g.server.clients ≡ some id
      → id ≢ 0
      → Inv (called g (remove_client c g.server))
  unfolding remove_client physics_msgs del_physical follow
  removes_player c id found ne =
      called_one g (remove_client c g.server) (del_char id) inv
        (Identifiers.remove_client-Inv inv.ids c)
        (rw (
          index-some c id g.server.clients found,
          ==_ne id 0 ne,
          physics_msgs-append,
          physics_msgs-broadcast,
          physics_msgs-broadcast,
        ))
        (record {
          clean = (tt, tt);
          alive = λ i b h e. ground (arith, inv.owned c id found ne);
          owned = λ d i b left nz h.
              let (old, other) = erase_found c (index c g.server.clients).1 d i left in
              ground (
                arith,
                index-some c id g.server.clients found,
                inv.owned d i,
                inv.ids.unique c d i,
              );
        })

  -- The client has no player, or one with the identifier 0: nothing is deleted.
  removes_quiet :
      (c : ℕ) → (index c g.server.clients).0 ≡ 0 → Inv (called g (remove_client c g.server))
  unfolding remove_client physics_msgs
  removes_quiet c e =
      called_quiet g (remove_client c g.server) inv (Identifiers.remove_client-Inv inv.ids c) (rw e)
        λ d id left ne. ground (
          arith,
          erase_found c (index c g.server.clients).1 d id left,
          index_found c g.server.clients d id (erase_found c _ d id left).0,
        )

  pub removes-Inv : (c : ℕ) → Inv (called g (remove_client c g.server))
  removes-Inv c = elim (Option-cases (lookup c g.server.clients)) [
    | inl missing ↦ removes_quiet c (index-none c g.server.clients missing)
    | inr (id, found) ↦ elim (Bool-cases (id == 0)) [
      | inl nil ↦ removes_quiet c (ground (arith, index-some c id g.server.clients found))
      | inr ne ↦ removes_player c id found (ground arith)
    ]
  ]
