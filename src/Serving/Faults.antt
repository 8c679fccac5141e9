-- ===== src/Serving/Faults.antt =====
-- The engine of the local server, and the calls of it by `removeClient`.
use quintses.Common.{
  ℕ, ◌≤◌, ◌≡◌, refl, true, false, Option, List, [], ◌∷◌, arith, Bool-cases, ◌⊎◌, inl, inr,
}
use quintses.Socket.{Result}
use quintses.Messages.Server.{ServerMsg, Matrix, shutdown}
use quintses.Server.{LocalServer, Effect}
use quintses.Lifecycle.{Owner}
use quintses.World.{load_world}
use quintses.Serving.Rounds.{rank}
use quintses.Serving.Threads.{Inv, step-Inv, reached-Inv}
use quintses.Serving.{
  WorldFile, is_built, has_player, Thread, Engine, Serving, Call, Event, start, does, owner_step,
  serve, serve_next, pick, construct, await_end, loaded, thread_step, client_step, step, steps,
  starting, hosting, announcing, loading, looping, leaving, closing, closed, quitting, ended, lost,
  of_owner, of_thread, of_client, spurious, removes, absent, alive, deleted,
}

-- The engine, by where the thread stands.
abbrev engine_of : Thread → Engine
engine_of starting = absent
engine_of closing = deleted
engine_of closed = deleted
engine_of quitting = deleted
engine_of ended = deleted
engine_of t = alive

record Sound (s : Serving) : Type 0 where
  engine : s.engine ≡ engine_of s.thread
  -- a fault leaves a trace only behind the loop
  late : (s.fault ≡ false) ⊎ (rank s.thread ≤ 3)

serve-Sound :
    (msg : ServerMsg) (left : List ServerMsg) (s : Serving)
    → s.thread ≡ looping
    → Sound s
    → Sound (serve (msg, left) s)
unfolding serve does
serve-Sound (shutdown c) left s h r = record {
  engine = ground (arith, r.engine, h);
  late = ground (arith, r.late, h);
}
serve-Sound msg left s h r = record { engine = r.engine; late = r.late }

serve_next-Sound :
    (n : ℕ) (msgs : List ServerMsg) (s : Serving)
    → s.thread ≡ looping
    → Sound s
    → Sound (serve_next n msgs s)
unfolding serve_next
serve_next-Sound n [] s h r = r
serve_next-Sound n (msg ∷ msgs) s h r = serve-Sound (pick n msg msgs).0 (pick n msg msgs).1 s h r

loaded-Sound :
    (o : Result (Option (LocalServer × List Effect))) (s : Serving)
    → s.thread ≡ loading
    → Sound s
    → Sound (loaded o s)
unfolding loaded does
loaded-Sound o s h r = record {
  engine = ground (arith, r.engine, h);
  late = ground (arith, r.late, h);
}

owner_step-Sound : (o : Owner) (s : Serving) → Sound s → Sound (owner_step o s)
unfolding owner_step construct await_end
owner_step-Sound o s r = record { engine = ground (arith, r.engine); late = ground (arith, r.late) }

client_step-Sound : (c : Call) (s : Serving) → rank s.thread ≤ 7 → Sound s → Sound (client_step c s)
unfolding client_step does
client_step-Sound c s h r = record {
  engine = ground (arith, r.engine);
  late = ground (arith, r.late, r.engine, h);
}

built-rank : (s : Serving) → Inv s → is_built s.owner ≡ true → rank s.thread ≤ 7
built-rank s inv h = ground (arith, inv.fits)

serve-fault :
    (msg : ServerMsg) (left : List ServerMsg) (s : Serving)
    → s.fault ≡ true
    → (serve (msg, left) s).fault ≡ true
unfolding serve does
serve-fault (shutdown c) left s h = h
serve-fault msg left s h = h

serve_next-fault :
    (n : ℕ) (msgs : List ServerMsg) (s : Serving)
    → s.fault ≡ true
    → (serve_next n msgs s).fault ≡ true
unfolding serve_next
serve_next-fault n [] s h = h
serve_next-fault n (msg ∷ msgs) s h = serve-fault (pick n msg msgs).0 (pick n msg msgs).1 s h

loaded-fault :
    (o : Result (Option (LocalServer × List Effect))) (s : Serving)
    → s.fault ≡ true
    → (loaded o s).fault ≡ true
unfolding loaded does
loaded-fault o s h = ground (arith, h)

module _ (w : WorldFile) where
  thread_step-Sound :
      (n : ℕ) (t : Thread) (s : Serving) → s.thread ≡ t → Sound s → Sound (thread_step w n t s)
  unfolding thread_step does
  thread_step-Sound n loading s h r =
      loaded-Sound (load_world w.dom w.math w.fuel w.file s.server) s h r
  thread_step-Sound n looping s h r = serve_next-Sound n s.inbox s h r
  thread_step-Sound n starting s h r = record { engine = refl; late = ground (arith, r.late, h) }
  thread_step-Sound n hosting s h r = record {
    engine = ground (arith, r.engine, h);
    late = ground (arith, r.late, h);
  }
  thread_step-Sound n announcing s h r = record {
    engine = ground (arith, r.engine, h);
    late = ground (arith, r.late, h);
  }
  thread_step-Sound n leaving s h r = record { engine = refl; late = inr (omega arith) }
  thread_step-Sound n closing s h r = record {
    engine = ground (arith, r.engine, h);
    late = inr (omega arith);
  }
  thread_step-Sound n closed s h r = record {
    engine = ground (arith, r.engine, h);
    late = inr (omega arith);
  }
  thread_step-Sound n quitting s h r = record {
    engine = ground (arith, r.engine, h);
    late = inr (omega arith);
  }
  thread_step-Sound n ended s h r = r
  thread_step-Sound n lost s h r = r

  step-Sound : (e : Event) (s : Serving) → Inv s → Sound s → Sound (step w e s)
  unfolding step
  step-Sound of_owner s inv r = owner_step-Sound s.owner s r
  step-Sound (of_thread n) s inv r = thread_step-Sound n s.thread s refl r
  step-Sound (of_client c) s inv r = elim (Bool-cases (is_built s.owner)) [
    | inl h ↦ rw h (client_step-Sound c s (built-rank s inv h) r)
    | inr h ↦ rw h r
  ]
  step-Sound spurious s inv r = record { engine = r.engine; late = r.late }

  steps-Sound : (es : List Event) (s : Serving) → Inv s → Sound s → Sound (steps w es s)
  unfolding steps
  steps-Sound [] s inv r = r
  steps-Sound (e ∷ es) s inv r =
      steps-Sound es (step w e s) (step-Inv w e s inv) (step-Sound e s inv r)

  reached-Sound : (es : List Event) (identity : Matrix) → Sound (steps w es (start identity))
  unfolding start steps
  reached-Sound es identity =
      steps-Sound es (start identity) (reached-Inv w [] identity)
        (record { engine = refl; late = inl refl })

  -- In every schedule: once the constructor has returned and until the thread takes the engine
  -- down, there is an engine, and no `removeClient` has called one that was not there.
  pub engine_alive :
      (es : List Event) (identity : Matrix)
      → is_built (steps w es (start identity)).owner ≡ true
      → 4 ≤ rank (steps w es (start identity)).thread
      → ((steps w es (start identity)).engine ≡ alive)
        × ((steps w es (start identity)).fault ≡ false)
  engine_alive es identity h k =
      let s = steps w es (start identity) in
      let r : Sound s = reached-Sound es identity in
      let early : rank s.thread ≤ 7 = built-rank s (reached-Inv w es identity) h in
      (ground (arith, r.engine, early, k), ground (arith, r.late, k))

  thread_step-fault :
      (n : ℕ) (t : Thread) (s : Serving) → s.fault ≡ true → (thread_step w n t s).fault ≡ true
  unfolding thread_step does
  thread_step-fault n t s h = ground (
    arith,
    h,
    loaded-fault (load_world w.dom w.math w.fuel w.file s.server) s,
    serve_next-fault n s.inbox s,
  )

  step-fault : (e : Event) (s : Serving) → s.fault ≡ true → (step w e s).fault ≡ true
  unfolding step owner_step construct await_end client_step does
  step-fault of_owner s h = ground (arith, h)
  step-fault (of_thread n) s h = thread_step-fault n s.thread s h
  step-fault (of_client c) s h = ground (arith, h)
  step-fault spurious s h = h

  steps-fault : (es : List Event) (s : Serving) → s.fault ≡ true → (steps w es s).fault ≡ true
  unfolding steps
  steps-fault [] s h = h
  steps-fault (e ∷ es) s h = steps-fault es (step w e s) (step-fault e s h)

  -- In every schedule: a `removeClient` of a client that has a player, once the thread has taken
  -- the engine down, calls an engine that is deleted, and nothing that comes later undoes it.
  pub removes_late :
      (es fs : List Event) (identity : Matrix) (c : ℕ)
      → rank (steps w es (start identity)).thread ≤ 3
      → has_player c (steps w es (start identity)).server ≡ true
      → let s = steps w es (start identity) in
        (s.engine ≡ deleted) × ((steps w fs (step w (of_client (removes c)) s)).fault ≡ true)
  unfolding step client_step does
  removes_late es fs identity c h player =
      let s = steps w es (start identity) in
      let gone : s.engine ≡ deleted = ground (arith, (reached-Sound es identity).engine, h) in
      let built : is_built s.owner ≡ true = ground (arith, (reached-Inv w es identity).fits, h) in
      (
        gone,
        steps-fault fs (step w (of_client (removes c)) s) (ground (arith, gone, built, player)),
      )
