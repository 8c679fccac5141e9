-- ===== src/Serving/Rounds.antt =====
-- What a step of the loop, of `loadWorld` and of a client leaves as it is.
use quintses.Common.{
  ap, ℕ, ◌≤◌, ◌≡◌, refl, Bool, true, false, Option, none, some, List, arith, inl, inr,
}
use quintses.Socket.{Result, Result-cases, ok, err}
use quintses.Messages.Server.{
  ServerMsg, shutdown, input, load_player, add_phys, add_char, del_phys, del_char, force_state,
}
use quintses.Server.{LocalServer, Effect, init, handle}
use quintses.World.{load_world}
use quintses.World.Kept.{load_world-kept}
use quintses.Serving.{
  WorldFile, Thread, Serving, Call, does, serve, loaded, client_step, starting, hosting, announcing,
  loading, looping, leaving, closing, closed, quitting, ended, lost, pushes, adds, removes,
  looks_up, pushes_transforms, ticks,
}

-- `m_running`, by where the thread stands.
abbrev pub is_running : Thread → Bool
is_running starting = false
is_running hosting = false
is_running quitting = false
is_running ended = false
is_running t = true

-- What is left of `run`, but for the rounds of its loop.
abbrev pub rank : Thread → ℕ
rank starting = 9
rank hosting = 8
rank announcing = 7
rank loading = 6
rank lost = 6
rank looping = 5
rank leaving = 4
rank closing = 3
rank closed = 2
rank quitting = 1
rank ended = 0

pub handle-running : (msg : ServerMsg) (s : LocalServer) → (handle msg s).0.running ≡ s.running
unfolding handle quintses.Server.load_player quintses.Server.get_next_identifier
handle-running (shutdown c) s = refl
handle-running (input c st) s = refl
handle-running (load_player c t) s = refl
handle-running (add_phys id t m) s = refl
handle-running (add_char id t m) s = refl
handle-running (del_phys id) s = refl
handle-running (del_char id) s = refl
handle-running (force_state id st) s = refl

-- A call of a client leaves the threads where they are.
pub client-same :
    (c : Call) (s : Serving)
    → ((client_step c s).owner ≡ s.owner) × ((client_step c s).thread ≡ s.thread)
unfolding client_step does
client-same (pushes msg) s = (refl, refl)
client-same (adds c) s = (refl, refl)
client-same (removes c) s = (refl, refl)
client-same (looks_up c) s = (refl, refl)
client-same (pushes_transforms ts) s = (refl, refl)
client-same ticks s = (refl, refl)

-- What the steps of the loop and of `loadWorld` leave as it is.
pub record Goes (s s' : Serving) : Type 0 where
  pub running : s'.server.running ≡ s.server.running
  pub owner : s'.owner ≡ s.owner
  pub fewer : rank s'.thread ≤ rank s.thread
  pub serving : 4 ≤ rank s'.thread
  pub on : is_running s'.thread ≡ true

pub serve-Goes :
    (msg : ServerMsg) (left : List ServerMsg) (s : Serving)
    → s.thread ≡ looping
    → Goes s (serve (msg, left) s)
unfolding serve does
serve-Goes (shutdown c) left s h = record {
  running = refl;
  owner = refl;
  fewer = ground (arith, h);
  serving = omega arith;
  on = refl;
}
serve-Goes msg left s h = record {
  running = handle-running msg s.server;
  owner = refl;
  fewer = omega arith;
  serving = ground (arith, h);
  on = ground (arith, h);
}

pub loaded-Goes :
    (w : WorldFile) (s : Serving)
    → s.thread ≡ loading
    → Goes s (loaded (load_world w.dom w.math w.fuel w.file s.server) s)
unfolding loaded does
loaded-Goes w s h = elim (Result-cases (load_world w.dom w.math w.fuel w.file s.server)) [
  | inl (e, r) ↦ rw r (record {
    running = refl;
    owner = refl;
    fewer = ground (arith, h);
    serving = omega arith;
    on = refl;
  })
  | inr (none, r) ↦ rw r (record {
    running = refl;
    owner = refl;
    fewer = ground (arith, h);
    serving = omega arith;
    on = refl;
  })
  | inr (some (s', out), r) ↦ rw r (record {
    running = ap (λ k. k.0) (load_world-kept w.dom w.math w.fuel w.file s.server r);
    owner = refl;
    fewer = ground (arith, h);
    serving = omega arith;
    on = refl;
  })
]

pub client-running : (c : Call) (s : Serving) → (client_step c s).server.running ≡ s.server.running
unfolding client_step does quintses.Server.add_client quintses.Server.remove_client
    quintses.Server.get_client_id quintses.Server.run_tick_callbacks
client-running (pushes msg) s = refl
client-running (adds c) s = refl
client-running (removes c) s = refl
client-running (looks_up c) s = refl
client-running (pushes_transforms ts) s = refl
client-running ticks s = refl

pub loaded-inbox :
    (r : Result (Option (LocalServer × List Effect))) (s : Serving)
    → ((loaded r s).inbox ≡ s.inbox) × (5 ≤ rank (loaded r s).thread)
unfolding loaded does
loaded-inbox (err e) s = (refl, omega arith)
loaded-inbox (ok none) s = (refl, omega arith)
loaded-inbox (ok (some r)) s = (refl, omega arith)
