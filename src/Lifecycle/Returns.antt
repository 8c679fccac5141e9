-- ===== src/Lifecycle/Returns.antt =====
-- The constructor and `finish` return: no wakeup is lost, and the thread ends once it is told to.
use quintses.Common.{◌≤◌, ◌≡◌, Bool, true, false, List, [], ◌∷◌, ◌++◌, arith, inr, ◌⊎◌}
use quintses.Lifecycle.{
  Owner, Thread, Worker, Event, start, step, steps, owner_step, thread_step, notify_all,
  constructing, waiting_start, finished, of_owner, of_thread, spurious,
}
use quintses.Lifecycle.Progress.{
  Inv, is_told, rank, moves, moved, step-Inv, steps-Inv, step-start, step-told, step-rank,
  reached-Inv, steps-rank, steps-start, steps-append,
}

-- The owner is behind its constructor.
abbrev pub is_built : Owner → Bool
is_built constructing = false
is_built waiting_start = false
is_built o = true

abbrev pub is_finished : Owner → Bool
is_finished finished = true
is_finished o = false

rank-le : (t : Thread) → rank t ≤ 7
rank-le t = ground arith

module _ {ℓ} {W : Type ℓ} (initialize body finalize : W → W) where
  -- With the thread in its loop or behind it, a move of the owner brings it behind its constructor.
  step-is_built :
      (e : Event) (s : Worker W)
      → Inv s
      → rank s.thread ≤ 4
      → (is_built s.owner ≡ true) ⊎ (1 ≤ moves of_owner e)
      → is_built (step initialize body finalize e s).owner ≡ true
  unfolding step owner_step thread_step notify_all
  step-is_built of_owner s inv h either = ground (arith, inv.fits, inv.running, inv.finish)
  step-is_built of_thread s inv h either = ground arith
  step-is_built spurious s inv h either = ground arith

  steps-is_built :
      (es : List Event) (s : Worker W)
      → Inv s
      → rank s.thread ≤ 4
      → (is_built s.owner ≡ true) ⊎ (1 ≤ moved of_owner es)
      → is_built (steps initialize body finalize es s).owner ≡ true
  unfolding steps
  steps-is_built [] s inv h either = ground arith
  steps-is_built (e ∷ es) s inv h either =
      steps-is_built es (step initialize body finalize e s)
        (step-Inv initialize body finalize e s inv)
        (omega (arith, step-start initialize body finalize e s))
        (ground (arith, step-is_built e s inv h))

  -- With the thread at its end and `finish` called, a move of the owner brings it to its end.
  step-is_finished :
      (e : Event) (s : Worker W)
      → Inv s
      → rank s.thread ≡ 0
      → is_told s.owner ≡ true
      → (is_finished s.owner ≡ true) ⊎ (1 ≤ moves of_owner e)
      → is_finished (step initialize body finalize e s).owner ≡ true
  unfolding step owner_step thread_step notify_all
  step-is_finished of_owner s inv h told either = ground (arith, inv.fits, inv.running)
  step-is_finished of_thread s inv h told either = ground arith
  step-is_finished spurious s inv h told either = ground arith

  steps-is_finished :
      (es : List Event) (s : Worker W)
      → Inv s
      → rank s.thread ≡ 0
      → is_told s.owner ≡ true
      → (is_finished s.owner ≡ true) ⊎ (1 ≤ moved of_owner es)
      → is_finished (steps initialize body finalize es s).owner ≡ true
  unfolding steps
  steps-is_finished [] s inv h told either = ground arith
  steps-is_finished (e ∷ es) s inv h told either =
      steps-is_finished es (step initialize body finalize e s)
        (step-Inv initialize body finalize e s inv)
        (omega (arith, step-rank initialize body finalize e s inv told))
        (step-told initialize body finalize e s told)
        (ground (arith, step-is_finished e s inv h told))

  -- However the owner, the thread and spurious wakeups take turns: once the thread has moved three times,
  -- the next move of the owner finds it behind the constructor, whether or not it was asleep.
  pub constructor_returns :
      (es fs : List Event) (w : W)
      → 3 ≤ moved of_thread es
      → 1 ≤ moved of_owner fs
      → is_built (steps initialize body finalize (es ++ fs) (start w)).owner ≡ true
  unfolding start
  constructor_returns es fs w threads owners =
      let s = steps initialize body finalize es (start w) in
      rw (steps-append initialize body finalize es fs (start w)) (
        steps-is_built fs s (reached-Inv initialize body finalize es w)
          (omega (arith, steps-start initialize body finalize es (start w))) (inr owners))

  -- From every state that a schedule reaches with `finish` called, however the owner, the thread
  -- and spurious wakeups take turns: once the thread has moved seven times it is at its end, and
  -- the next move of the owner returns from `finish`.
  pub finish_returns :
      (before es fs : List Event) (w : W)
      → is_told (steps initialize body finalize before (start w)).owner ≡ true
      → 7 ≤ moved of_thread es
      → 1 ≤ moved of_owner fs
      → let s =
          steps initialize body finalize
            (es ++ fs)
            (steps initialize body finalize before (start w)) in
        (rank s.thread ≡ 0) × (is_finished s.owner ≡ true)
  finish_returns before es fs w told threads owners =
      let s = steps initialize body finalize before (start w) in
      let s' = steps initialize body finalize es s in
      let inv : Inv s = reached-Inv initialize body finalize before w in
      let inv' : Inv s' = steps-Inv initialize body finalize es s inv in
      let (less, told') = steps-rank initialize body finalize es s inv told in
      let ended : rank s'.thread ≡ 0 = omega (arith, less, rank-le s.thread) in
      rw (steps-append initialize body finalize es fs s) (
        omega (arith, (steps-rank initialize body finalize fs s' inv' told').0, ended),
        steps-is_finished fs s' inv' ended told' (inr owners),
      )
