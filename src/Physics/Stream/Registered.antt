-- ===== src/Physics/Stream/Registered.antt =====
-- What is registered with the bullet world, in every reachable state of the game.
use mathlib.Core.Path.{subst}
use quintses.Common.{ℕ, ◌+◌, ◌≤◌, ◌≡◌, List, [], ◌∷◌, arith, if◌then◌else◌}
use quintses.Common.Map.{lookup}
use quintses.Socket.{ok}
use quintses.Messages.Server.{
  ServerMsg, Matrix, shutdown, input, load_player, add_phys, add_char, del_phys, del_char,
  force_state,
}
use quintses.Server.{LocalServer}
use quintses.Physics.{BtPhysics, init, parse_message}
use quintses.Physics.Registered.{IsRegistered, IsNew, init-IsRegistered, parse_message-IsRegistered}
use quintses.Physics.Stream.{
  Game, adds, removes, loads, inputs, spawns, blocks, ticks, parses, Reach, start, later,
}
use quintses.Common.{ltb}
use quintses.Physics.Stream.Orderly.{
  adding, present, Orderly, adding-append, adds-Orderly, ticks-Orderly, inputs-Orderly,
  removes-Orderly, loads-Orderly, spawns-Orderly, blocks-Orderly,
}
use quintses.Physics.Stream.Uses.{Uses, parse_message-Uses}

single-IsNew :
    (msg : ServerMsg) (rest : List ServerMsg) (p : BtPhysics)
    → ((i : ℕ) → adding i (msg ∷ rest) + present i p ≤ 1)
    → IsNew msg p
unfolding adding
single-IsNew (add_phys id t m) rest p h = ground (arith, h id)
single-IsNew (add_char id t m) rest p h = ground (arith, h id)
single-IsNew (shutdown c) rest p h = tt
single-IsNew (input c st) rest p h = tt
single-IsNew (load_player c t) rest p h = tt
single-IsNew (del_phys id) rest p h = tt
single-IsNew (del_char id) rest p h = tt
single-IsNew (force_state id st) rest p h = tt

parses-Orderly :
    (g : Game) (msg : ServerMsg) (rest : List ServerMsg) (s : LocalServer) (p : BtPhysics)
    → Orderly g
    → g.pending ≡ msg ∷ rest
    → parse_message msg g.server g.physics ≡ ok (s, p)
    → Orderly (record { server = s; physics = p; pending = rest })
parses-Orderly g msg rest s p o e h =
    let u : Uses msg g.server s g.physics p = parse_message-Uses msg g.server s g.physics p h in
    let single : (i : ℕ) → adding i (msg ∷ rest) + present i g.physics ≤ 1 =
      subst (λ l. (i : ℕ) → adding i l + present i g.physics ≤ 1) e o.single in
    let fresh : (i : ℕ) → g.server.next_id ≤ i → adding i (msg ∷ rest) + present i g.physics ≡ 0 =
      subst (λ l. (i : ℕ) → g.server.next_id ≤ i → adding i l + present i g.physics ≡ 0) e
        o.fresh in
    record {
      single = λ i. omega (arith, single i, u.used i, adding-append i (msg ∷ []) rest);
      fresh = λ i k. omega (arith, fresh i, u.used i, u.same, k, adding-append i (msg ∷ []) rest);
      registered =
          parse_message-IsRegistered msg g.server o.registered
            (single-IsNew msg rest g.physics single) h;
    }

Reach-Orderly : {spawn : Matrix} {g : Game} → Reach spawn g → Orderly g
unfolding init adding lookup
Reach-Orderly start = record {
  single = λ i. omega arith;
  fresh = λ i h. omega arith;
  registered = init-IsRegistered;
}
Reach-Orderly (later r (adds g c)) = adds-Orderly g (Reach-Orderly r) c
Reach-Orderly (later r (removes g c)) = removes-Orderly g (Reach-Orderly r) c
Reach-Orderly (later r (loads g c t h)) = loads-Orderly g (Reach-Orderly r) c t h
Reach-Orderly (later r (inputs g c st)) = inputs-Orderly g (Reach-Orderly r) c st
Reach-Orderly (later r (spawns g t m h)) = spawns-Orderly g (Reach-Orderly r) t m h
Reach-Orderly (later r (blocks g t m h)) = blocks-Orderly g (Reach-Orderly r) t m h
Reach-Orderly (later r (ticks g)) = ticks-Orderly g (Reach-Orderly r)
Reach-Orderly (later r (parses g msg rest s p e h)) =
    parses-Orderly g msg rest s p (Reach-Orderly r) e h

-- In every state that the calls of the server and an engine that takes the messages in the order of
-- the pushes reach from the start, with fewer than 2 ^ 32 identifiers given out: exactly the
-- objects and characters of the engine are registered with the bullet world, each once, and each
-- identifier stands for one of them at most, with those that the queue still adds, and for none if
-- it has not been given out.
pub Reach-IsRegistered :
    {spawn : Matrix} {g : Game} (i : ℕ)
    → Reach spawn g
    → IsRegistered g.physics
      × (adding i g.pending + present i g.physics ≤ (if ltb i g.server.next_id then 1 else 0))
Reach-IsRegistered {g = g} i r =
    let o : Orderly g = Reach-Orderly r in (o.registered, ground (arith, o.single i, o.fresh i))
