-- ===== src/Server/Identifiers.antt =====
-- The identifiers that the server hands out, over any sequence of its calls.
use quintses.Common.{
  ℕ, ◌+◌, ◌^◌, ◌≤◌, ◌<◌, ◌≡◌, ◌≢◌, refl, Bool, true, false, ◌||◌, some, List, [], ◌∷◌, ◌++◌, arith,
  ◌==◌, length,
}
use quintses.Common.Map.{
  lookup, Rising, insert-Rising, erase-Rising, index-Rising, index_found, insert_found, erase_found,
}
use quintses.Messages.Server.{Matrix, Text}
use quintses.Server.{
  LocalServer, BaddieData, add_client, remove_client, load_player, get_client_id,
  run_tick_callbacks, spawn_baddie, add_blocker, init,
}

-- What other threads and the message loop call.
pub data Call : Type 0 where
  adds removes asks : ℕ → Call
  loads : ℕ → Text → Call
  spawns blocks : Text → Matrix → Call
  ticks : Call

unfoldable pub step : Call → LocalServer → LocalServer
step (adds c) s = (add_client c s).0
step (removes c) s = (remove_client c s).0
step (asks c) s = (get_client_id c s).1
step (loads c t) s = (load_player c t s).0
step (spawns t m) s = (spawn_baddie t m s).0
step (blocks t m) s = (add_blocker t m s).0
step ticks s = (run_tick_callbacks s).0

unfoldable pub run : List Call → LocalServer → LocalServer
run [] s = s
run (e ∷ es) s = run es (step e s)

abbrev pub is_baddie : ℕ → List BaddieData → Bool
is_baddie id [] = false
is_baddie id (b ∷ bs) = b.id == id || is_baddie id bs

is_baddie-append :
    (id : ℕ) (bs : List BaddieData) (b : BaddieData)
    → is_baddie id (bs ++ b ∷ []) ≡ (is_baddie id bs || b.id == id)
is_baddie-append id [] b = ground arith
is_baddie-append id (a ∷ bs) b = ground (arith, is_baddie-append id bs b)

-- Clients in key order, and every identifier but 0 below the counter and given to one thing.
pub record Inv (s : LocalServer) : Type 0 where
  pub clients_rise : Rising 0 s.clients
  pub lobby_rises : Rising 0 s.lobby_clients
  pub counter : 0 < s.next_id
  pub below : (c id : ℕ) → lookup c s.clients ≡ some id → id < s.next_id
  pub baddies_below : (id : ℕ) → is_baddie id s.baddies ≡ true → id < s.next_id
  pub unique :
      (c d id : ℕ) → lookup c s.clients ≡ some id → lookup d s.clients ≡ some id → id ≢ 0 → c ≡ d
  pub apart : (c id : ℕ) → lookup c s.clients ≡ some id → id ≢ 0 → is_baddie id s.baddies ≡ false
  pub ticks_below : s.ticks < 40

pub init-Inv : (m : Matrix) → Inv (init m)
unfolding init lookup
init-Inv m = record {
  clients_rise = tt;
  lobby_rises = tt;
  counter = omega arith;
  below = λ c id h. cc;
  baddies_below = λ id h. cc;
  unique = λ c d id h h' ne. cc;
  apart = λ c id h ne. refl;
  ticks_below = omega arith;
}

module _ {s : LocalServer} (inv : Inv s) where
  open inv use {
    clients_rise, lobby_rises, counter, below, baddies_below, unique, apart, ticks_below,
  }

  pub add_client-Inv : (c : ℕ) → Inv (add_client c s).0
  unfolding add_client
  add_client-Inv c = record {
    clients_rise = clients_rise;
    lobby_rises = insert-Rising c tt s.lobby_clients lobby_rises;
    counter = counter;
    below = below;
    baddies_below = baddies_below;
    unique = unique;
    apart = apart;
    ticks_below = ticks_below;
  }

  pub get_client_id-Inv : (c : ℕ) → Inv (get_client_id c s).1
  unfolding get_client_id
  get_client_id-Inv c = record {
    clients_rise = index-Rising c s.clients clients_rise;
    lobby_rises = lobby_rises;
    counter = counter;
    below = λ d id h. ground (arith, index_found c s.clients d id h, below d id);
    baddies_below = baddies_below;
    unique = λ d e id h h' ne.
        ground
          (arith, index_found c s.clients d id h, index_found c s.clients e id h', unique d e id);
    apart = λ d id h ne. ground (arith, index_found c s.clients d id h, apart d id);
    ticks_below = ticks_below;
  }

  pub remove_client-Inv : (c : ℕ) → Inv (remove_client c s).0
  unfolding remove_client get_client_id
  remove_client-Inv c =
      let after = (get_client_id-Inv c) in
      record {
        clients_rise = erase-Rising 0 c _ after.clients_rise;
        lobby_rises = erase-Rising 0 c s.lobby_clients lobby_rises;
        counter = counter;
        below = λ d id h. after.below d id (erase_found c _ d id h).0;
        baddies_below = baddies_below;
        unique = λ d e id h h' ne.
            after.unique d e id (erase_found c _ d id h).0 (erase_found c _ e id h').0 ne;
        apart = λ d id h ne. after.apart d id (erase_found c _ d id h).0 ne;
        ticks_below = ticks_below;
      }

  pub load_player-Inv : (c : ℕ) (t : Text) → s.next_id + 1 < 2 ^ 32 → Inv (load_player c t s).0
  unfolding load_player
  load_player-Inv c t room = record {
    clients_rise = insert-Rising c s.next_id s.clients clients_rise;
    lobby_rises = erase-Rising 0 c s.lobby_clients lobby_rises;
    counter = omega arith;
    below = λ d id h. ground (arith, insert_found c s.next_id s.clients d id h, below d id);
    baddies_below = λ id h. omega (arith, baddies_below id h);
    unique = λ d e id h h' ne. ground (
      arith,
      insert_found c s.next_id s.clients d id h,
      insert_found c s.next_id s.clients e id h',
      unique d e id,
      below d id,
      below e id,
    );
    apart = λ d id h ne.
        ground
          (arith, insert_found c s.next_id s.clients d id h, apart d id, baddies_below s.next_id);
    ticks_below = ticks_below;
  }

  pub spawn_baddie-Inv :
      (t : Text) (m : Matrix) → s.next_id + 1 < 2 ^ 32 → Inv (spawn_baddie t m s).0
  unfolding spawn_baddie
  spawn_baddie-Inv t m room = record {
    clients_rise = clients_rise;
    lobby_rises = lobby_rises;
    counter = omega arith;
    below = λ c id h. omega (arith, below c id h);
    baddies_below = λ id h. ground (
      arith,
      is_baddie-append id s.baddies (record { templ = t; id = s.next_id }),
      baddies_below id,
    );
    unique = unique;
    apart = λ c id h ne. ground (
      arith,
      is_baddie-append id s.baddies (record { templ = t; id = s.next_id }),
      apart c id,
      below c id,
    );
    ticks_below = ticks_below;
  }

  pub add_blocker-Inv : (t : Text) (m : Matrix) → s.next_id + 1 < 2 ^ 32 → Inv (add_blocker t m s).0
  unfolding add_blocker
  add_blocker-Inv t m room = record {
    clients_rise = clients_rise;
    lobby_rises = lobby_rises;
    counter = omega arith;
    below = λ c id h. omega (arith, below c id h);
    baddies_below = λ id h. omega (arith, baddies_below id h);
    unique = unique;
    apart = apart;
    ticks_below = ticks_below;
  }

  pub run_tick_callbacks-Inv : Inv (run_tick_callbacks s).0
  unfolding run_tick_callbacks
  run_tick_callbacks-Inv = record {
    clients_rise = clients_rise;
    lobby_rises = lobby_rises;
    counter = counter;
    below = below;
    baddies_below = baddies_below;
    unique = unique;
    apart = apart;
    ticks_below = ground arith;
  }

pub step-Inv : (e : Call) {s : LocalServer} → s.next_id + 1 < 2 ^ 32 → Inv s → Inv (step e s)
unfolding step
step-Inv (adds c) room inv = add_client-Inv inv c
step-Inv (removes c) room inv = remove_client-Inv inv c
step-Inv (asks c) room inv = get_client_id-Inv inv c
step-Inv (loads c t) room inv = load_player-Inv inv c t room
step-Inv (spawns t m) room inv = spawn_baddie-Inv inv t m room
step-Inv (blocks t m) room inv = add_blocker-Inv inv t m room
step-Inv ticks room inv = run_tick_callbacks-Inv inv

pub step_next_id : (e : Call) (s : LocalServer) → (step e s).next_id ≤ s.next_id + 1
unfolding step add_client remove_client get_client_id load_player run_tick_callbacks spawn_baddie
    add_blocker
step_next_id (adds c) s = omega arith
step_next_id (removes c) s = omega arith
step_next_id (asks c) s = omega arith
step_next_id (loads c t) s = omega arith
step_next_id (spawns t m) s = omega arith
step_next_id (blocks t m) s = omega arith
step_next_id ticks s = omega arith

-- While fewer calls are made than identifiers are left, every sequence of calls keeps the invariant.
pub run-Inv :
    (es : List Call) (s : LocalServer) → s.next_id + length es < 2 ^ 32 → Inv s → Inv (run es s)
unfolding run
run-Inv [] s room inv = inv
run-Inv (e ∷ es) s room inv =
    run-Inv es (step e s) (omega (arith, step_next_id e s)) (step-Inv e (omega arith) inv)

-- In a server that starts with fewer than 2 ^ 32 - 1 calls to come, every identifier but 0 belongs to
-- one client at most, and to no client if it belongs to a baddie; clients and lobby stay in key order.
pub identifiers_unique :
    (m : Matrix) (es : List Call) → length es + 1 < 2 ^ 32 → Inv (run es (init m))
unfolding init
identifiers_unique m es room = run-Inv es (init m) (omega arith) (init-Inv m)
