-- ===== src/Lifecycle/Progress.antt =====
-- How far the thread and its owner are, in every schedule.
use quintses.Common.{ℕ, ◌+◌, ◌-◌, ◌≤◌, ◌≡◌, refl, Bool, true, false, List, [], ◌∷◌, ◌++◌, arith}
use quintses.Lifecycle.{
  Owner, Thread, Worker, Event, start, step, steps, owner_step, thread_step, notify_all,
  constructing, waiting_start, built, finishing, waiting_end, finished, starting, initialized,
  announcing, looping, leaving, closed, quitting, ended, of_owner, of_thread, spurious,
}

-- `m_running`, by where the thread stands.
abbrev is_running : Thread → Bool
is_running announcing = true
is_running looping = true
is_running leaving = true
is_running closed = true
is_running t = false

-- `m_finish`, by where the owner stands.
abbrev pub is_told : Owner → Bool
is_told finishing = true
is_told waiting_end = true
is_told finished = true
is_told o = false

-- What is left of `run`, but for the rounds of its loop.
abbrev pub rank : Thread → ℕ
rank starting = 7
rank initialized = 6
rank announcing = 5
rank looping = 4
rank leaving = 3
rank closed = 2
rank quitting = 1
rank ended = 0

-- Whether a notification is still to come that wakes an owner that is asleep, and whether the thread has
-- started for an owner behind its constructor.
abbrev Fits : Owner → ℕ → Type 0
Fits constructing r = 4 ≤ r
Fits waiting_start r = 5 ≤ r
Fits built r = (4 ≤ r) × (r ≤ 5)
Fits finishing r = r ≤ 5
Fits waiting_end r = (1 ≤ r) × (r ≤ 5)
Fits finished r = r ≤ 1

-- How often the owner or the thread moves in a schedule.
abbrev pub moves : Event → Event → ℕ
moves of_owner of_owner = 1
moves of_thread of_thread = 1
moves spurious spurious = 1
moves e f = 0

abbrev pub moved : Event → List Event → ℕ
moved e [] = 0
moved e (f ∷ es) = moves e f + moved e es

module _ {ℓ} {W : Type ℓ} where
  pub record Inv (s : Worker W) : Type 0 where
    pub running : s.running ≡ is_running s.thread
    pub finish : s.finish ≡ is_told s.owner
    pub fits : Fits s.owner (rank s.thread)

  pub start-Inv : (w : W) → Inv (start w)
  unfolding start
  start-Inv w = record { running = refl; finish = refl; fits = omega arith }

  module _ (initialize body finalize : W → W) where
    pub step-Inv : (e : Event) (s : Worker W) → Inv s → Inv (step initialize body finalize e s)
    unfolding step owner_step thread_step notify_all
    step-Inv of_owner s inv = record {
      running = ground (arith, inv.running);
      finish = ground (arith, inv.finish);
      fits = ground (arith, inv.running, inv.fits);
    }
    step-Inv of_thread s inv = record {
      running = ground (arith, inv.running);
      finish = ground (arith, inv.finish);
      fits = ground (arith, inv.finish, inv.fits);
    }
    step-Inv spurious s inv = record {
      running = ground (arith, inv.running);
      finish = ground (arith, inv.finish);
      fits = ground (arith, inv.fits);
    }

    pub steps-Inv :
        (es : List Event) (s : Worker W) → Inv s → Inv (steps initialize body finalize es s)
    unfolding steps
    steps-Inv [] s inv = inv
    steps-Inv (e ∷ es) s inv = steps-Inv es (step initialize body finalize e s) (step-Inv e s inv)

    pub reached-Inv : (es : List Event) (w : W) → Inv (steps initialize body finalize es (start w))
    reached-Inv es w = steps-Inv es (start w) (start-Inv w)

    pub steps-append :
        (es fs : List Event) (s : Worker W)
        → steps initialize body finalize (es ++ fs) s
          ≡ steps initialize body finalize fs (steps initialize body finalize es s)
    unfolding steps
    steps-append [] fs s = refl
    steps-append (e ∷ es) fs s = steps-append es fs (step initialize body finalize e s)

    pub step-told :
        (e : Event) (s : Worker W)
        → is_told s.owner ≡ true
        → is_told (step initialize body finalize e s).owner ≡ true
    unfolding step owner_step thread_step notify_all
    step-told of_owner s h = ground arith
    step-told of_thread s h = ground arith
    step-told spurious s h = ground arith

    pub step-rank :
        (e : Event) (s : Worker W)
        → Inv s
        → is_told s.owner ≡ true
        → rank (step initialize body finalize e s).thread ≡ rank s.thread - moves of_thread e
    unfolding step owner_step thread_step
    step-rank of_owner s inv h = ground arith
    step-rank of_thread s inv h = ground (arith, inv.finish)
    step-rank spurious s inv h = ground arith

    pub step-start :
        (e : Event) (s : Worker W)
        → rank (step initialize body finalize e s).thread
          ≤ 4 + (rank s.thread - 4 - moves of_thread e)
    unfolding step owner_step thread_step
    step-start of_owner s = ground arith
    step-start of_thread s = ground arith
    step-start spurious s = ground arith

    pub steps-rank :
        (es : List Event) (s : Worker W)
        → Inv s
        → is_told s.owner ≡ true
        → (rank (steps initialize body finalize es s).thread ≡ rank s.thread - moved of_thread es)
          × (is_told (steps initialize body finalize es s).owner ≡ true)
    unfolding steps
    steps-rank [] s inv h = (omega arith, h)
    steps-rank (e ∷ es) s inv h =
        let (less, told) =
          steps-rank es (step initialize body finalize e s) (step-Inv e s inv) (step-told e s h) in
        (omega (arith, less, step-rank e s inv h), told)

    pub steps-start :
        (es : List Event) (s : Worker W)
        → rank (steps initialize body finalize es s).thread
          ≤ 4 + (rank s.thread - 4 - moved of_thread es)
    unfolding steps
    steps-start [] s = omega arith
    steps-start (e ∷ es) s =
        omega (arith, steps-start es (step initialize body finalize e s), step-start e s)
