-- ===== src/Serving/Threads.antt =====
-- How the flag of the server, its threads and its queue go together, in every schedule.
use quintses.Common.{ℕ, ◌≤◌, ◌≡◌, refl, true, List, [], ◌∷◌, ◌++◌, arith, Bool-cases, ◌⊎◌, inl, inr}
use quintses.Messages.Server.{ServerMsg, Matrix}
use quintses.Server.{init}
use quintses.Lifecycle.{
  Owner, notify_all, constructing, waiting_start, built, finishing, waiting_end, finished,
}
use quintses.World.{load_world}
use quintses.Serving.Rounds.{
  is_running, rank, Goes, serve-Goes, loaded-Goes, loaded-inbox, client-running, client-same,
}
use quintses.Serving.{
  WorldFile, is_built, Thread, Serving, Call, Event, start, does, owner_step, serve_next, pick,
  construct, await_end, thread_step, client_step, step, steps, starting, hosting, announcing,
  loading, looping, leaving, closing, closed, quitting, ended, lost, of_owner, of_thread, of_client,
  spurious,
}

-- Whether a notification is still to come that wakes an owner that is asleep, and whether the thread has
-- started for an owner behind its constructor.
abbrev Fits : Owner → ℕ → Type 0
Fits constructing r = 5 ≤ r
Fits waiting_start r = 7 ≤ r
Fits built r = r ≤ 7
Fits finishing r = r ≤ 7
Fits waiting_end r = (1 ≤ r) × (r ≤ 7)
Fits finished r = r ≤ 1

pub record Inv (s : Serving) : Type 0 where
  pub running : s.server.running ≡ is_running s.thread
  pub fits : Fits s.owner (rank s.thread)
  pub empty : (is_built s.owner ≡ true) ⊎ (s.inbox ≡ [])

Goes-Inv :
    {s s' : Serving}
    → Inv s
    → Goes s s'
    → rank s.thread ≤ 6
    → 5 ≤ rank s.thread
    → (is_built s.owner ≡ true) ⊎ ((5 ≤ rank s'.thread) × (s'.inbox ≡ []))
    → Inv s'
Goes-Inv inv g h k either = record {
  running = ground (arith, inv.running, g.running, g.on);
  fits = ground (arith, inv.fits, g.owner, g.fewer, g.serving, either);
  empty = ground (arith, g.owner, either);
}

serve_next-Inv :
    (n : ℕ) (msgs : List ServerMsg) (s : Serving)
    → s.thread ≡ looping
    → s.inbox ≡ msgs
    → Inv s
    → Inv (serve_next n msgs s)
unfolding serve_next
serve_next-Inv n [] s h same inv = inv
serve_next-Inv n (msg ∷ msgs) s h same inv =
    Goes-Inv inv (serve-Goes (pick n msg msgs).0 (pick n msg msgs).1 s h) (ground (arith, h))
      (ground (arith, h)) (inl (ground (arith, inv.empty, same)))

module _ (w : WorldFile) where
  thread_step-Inv :
      (n : ℕ) (t : Thread) (s : Serving) → s.thread ≡ t → Inv s → Inv (thread_step w n t s)
  unfolding thread_step does notify_all
  thread_step-Inv n starting s h inv = record {
    running = ground (arith, inv.running, h);
    fits = ground (arith, inv.fits, h);
    empty = ground (arith, inv.empty, h);
  }
  thread_step-Inv n hosting s h inv = record {
    running = refl;
    fits = ground (arith, inv.fits, h);
    empty = ground (arith, inv.empty, h);
  }
  thread_step-Inv n announcing s h inv = record {
    running = ground (arith, inv.running, h);
    fits = ground (arith, inv.fits, h);
    empty = ground (arith, inv.empty, h);
  }
  thread_step-Inv n loading s h inv =
      Goes-Inv inv (loaded-Goes w s h) (ground (arith, h)) (ground (arith, h))
        (ground (arith, inv.empty, loaded-inbox (load_world w.dom w.math w.fuel w.file s.server) s))
  thread_step-Inv n looping s h inv = serve_next-Inv n s.inbox s h refl inv
  thread_step-Inv n leaving s h inv = record {
    running = ground (arith, inv.running, h);
    fits = ground (arith, inv.fits, h);
    empty = ground (arith, inv.empty, h);
  }
  thread_step-Inv n closing s h inv = record {
    running = ground (arith, inv.running, h);
    fits = ground (arith, inv.fits, h);
    empty = ground (arith, inv.empty, h);
  }
  thread_step-Inv n closed s h inv = record {
    running = refl;
    fits = ground (arith, inv.fits, h);
    empty = ground (arith, inv.empty, h);
  }
  thread_step-Inv n quitting s h inv = record {
    running = ground (arith, inv.running, h);
    fits = ground (arith, inv.fits, h);
    empty = ground (arith, inv.empty, h);
  }
  thread_step-Inv n ended s h inv = inv
  thread_step-Inv n lost s h inv = inv

  owner_step-Inv : (o : Owner) (s : Serving) → s.owner ≡ o → Inv s → Inv (owner_step o s)
  unfolding owner_step construct await_end
  owner_step-Inv constructing s h inv = record {
    running = inv.running;
    fits = ground (arith, inv.fits, inv.running);
    empty = ground (arith, inv.empty, h);
  }
  owner_step-Inv built s h inv = record {
    running = inv.running;
    fits = ground (arith, inv.fits, h);
    empty = ground (arith, inv.empty, h);
  }
  owner_step-Inv finishing s h inv = record {
    running = inv.running;
    fits = ground (arith, inv.fits, inv.running, h);
    empty = ground (arith, inv.empty, h);
  }
  owner_step-Inv waiting_start s h inv = inv
  owner_step-Inv waiting_end s h inv = inv
  owner_step-Inv finished s h inv = inv

  client_step-Inv :
      (c : Call) (s : Serving) → is_built s.owner ≡ true → Inv s → Inv (client_step c s)
  client_step-Inv c s h inv =
      let (owner, thread) = client-same c s in
      record {
        running = ground (arith, inv.running, client-running c s, thread);
        fits = ground (arith, inv.fits, owner, thread);
        empty = inl (ground (arith, h, owner));
      }

  pub step-Inv : (e : Event) (s : Serving) → Inv s → Inv (step w e s)
  unfolding step notify_all
  step-Inv of_owner s inv = owner_step-Inv s.owner s refl inv
  step-Inv (of_thread n) s inv = thread_step-Inv n s.thread s refl inv
  step-Inv (of_client c) s inv = elim (Bool-cases (is_built s.owner)) [
    | inl h ↦ rw h (client_step-Inv c s h inv)
    | inr h ↦ rw h inv
  ]
  step-Inv spurious s inv = record {
    running = inv.running;
    fits = ground (arith, inv.fits);
    empty = ground (arith, inv.empty);
  }

  pub steps-Inv : (es : List Event) (s : Serving) → Inv s → Inv (steps w es s)
  unfolding steps
  steps-Inv [] s inv = inv
  steps-Inv (e ∷ es) s inv = steps-Inv es (step w e s) (step-Inv e s inv)

  pub reached-Inv : (es : List Event) (identity : Matrix) → Inv (steps w es (start identity))
  unfolding start init
  reached-Inv es identity =
      steps-Inv es (start identity)
        (record { running = refl; fits = omega arith; empty = inr refl })

  pub steps-append :
      (es fs : List Event) (s : Serving) → steps w (es ++ fs) s ≡ steps w fs (steps w es s)
  unfolding steps
  steps-append [] fs s = refl
  steps-append (e ∷ es) fs s = steps-append es fs (step w e s)
