-- ===== src/Serving/Progress.antt =====
-- With a `ShutdownMessage` in the queue the thread comes to its end.
use quintses.Common.{
  ℕ, zero, suc, ◌+◌, ◌-◌, ◌≤◌, ◌≡◌, refl, Bool, true, false, List, [], ◌∷◌, ◌++◌, ◌||◌, arith,
  length, Bool-cases, ◌⊎◌, inl, inr, ◌==◌,
}
use quintses.Messages.Server.{ServerMsg, shutdown}
use quintses.Lifecycle.{Owner, notify_all}
use quintses.Serving.Rounds.{rank, client-same}
use quintses.Serving.{
  WorldFile, is_built, Thread, Serving, Call, Event, does, owner_step, serve, serve_next, pick,
  construct, await_end, thread_step, client_step, step, steps, starting, hosting, announcing,
  loading, looping, leaving, closing, closed, quitting, ended, lost, of_owner, of_thread, of_client,
  spurious, pushes, adds, removes, looks_up, pushes_transforms, ticks,
}

abbrev is_shutdown : ServerMsg → Bool
is_shutdown (shutdown c) = true
is_shutdown msg = false

abbrev pub has_shutdown : List ServerMsg → Bool
has_shutdown [] = false
has_shutdown (msg ∷ msgs) = is_shutdown msg || has_shutdown msgs

-- The loop has been left, or a `ShutdownMessage` waits for it.
abbrev pub IsEnding : Serving → Type 0
IsEnding s = (rank s.thread ≤ 4) ⊎ ((s.thread ≡ looping) × (has_shutdown s.inbox ≡ true))

-- How often the thread has to move, if nothing more is pushed.
abbrev pub left : Thread → List ServerMsg → ℕ
left looping inbox = 4 + length inbox
left t inbox = rank t

-- How often the thread moves in a schedule, the owner moves, and a message is pushed.
abbrev pub thread_moves : List Event → ℕ
thread_moves [] = 0
thread_moves (of_thread n ∷ es) = suc (thread_moves es)
thread_moves (e ∷ es) = thread_moves es

abbrev pub owner_moves : List Event → ℕ
owner_moves [] = 0
owner_moves (of_owner ∷ es) = suc (owner_moves es)
owner_moves (e ∷ es) = owner_moves es

abbrev pub pushed : List Event → ℕ
pushed [] = 0
pushed (of_client (pushes msg) ∷ es) = suc (pushed es)
pushed (e ∷ es) = pushed es

pick-length :
    (n : ℕ) (msg : ServerMsg) (msgs : List ServerMsg) → length (pick n msg msgs).1 ≡ length msgs
unfolding pick
pick-length zero msg msgs = refl
pick-length (suc n) msg [] = refl
pick-length (suc n) msg (next ∷ msgs) = ground (arith, pick-length n next msgs)

pick-has_shutdown :
    (n : ℕ) (msg : ServerMsg) (msgs : List ServerMsg)
    → (is_shutdown (pick n msg msgs).0 || has_shutdown (pick n msg msgs).1)
      ≡ (is_shutdown msg || has_shutdown msgs)
unfolding pick
pick-has_shutdown zero msg msgs = refl
pick-has_shutdown (suc n) msg [] = refl
pick-has_shutdown (suc n) msg (next ∷ msgs) = ground (arith, pick-has_shutdown n next msgs)

pub append-has_shutdown :
    (msgs : List ServerMsg) (msg : ServerMsg)
    → has_shutdown msgs ≡ true
    → has_shutdown (msgs ++ msg ∷ []) ≡ true
append-has_shutdown [] msg h = absurd (ground arith)
append-has_shutdown (next ∷ msgs) msg h = ground (arith, append-has_shutdown msgs msg)

append-length :
    (msgs : List ServerMsg) (msg : ServerMsg) → length (msgs ++ msg ∷ []) ≡ suc (length msgs)
append-length [] msg = refl
append-length (next ∷ msgs) msg = ground (arith, append-length msgs msg)

serve-less :
    (msg : ServerMsg) (rest : List ServerMsg) (s : Serving)
    → s.thread ≡ looping
    → (is_shutdown msg || has_shutdown rest) ≡ true
    → IsEnding (serve (msg, rest) s)
      × (left (serve (msg, rest) s).thread (serve (msg, rest) s).inbox ≤ 4 + length rest)
unfolding serve does
serve-less (shutdown c) rest s h k = (inl (omega arith), omega arith)
serve-less msg rest s h k = (inr (h, k), ground (arith, h))

pub serve_next-less :
    (n : ℕ) (msgs : List ServerMsg) (s : Serving)
    → s.thread ≡ looping
    → has_shutdown msgs ≡ true
    → IsEnding (serve_next n msgs s)
      × (left (serve_next n msgs s).thread (serve_next n msgs s).inbox ≤ 3 + length msgs)
unfolding serve_next
serve_next-less n [] s h k = absurd (ground arith)
serve_next-less n (msg ∷ msgs) s h k =
    let (taken, rest) = pick n msg msgs in
    let (ends, less) =
      serve-less taken rest s h (ground (arith, pick-has_shutdown n msg msgs, k)) in
    (ends, omega (arith, less, pick-length n msg msgs))

thread_moves-cons :
    (e : Event) (es : List Event)
    → (thread_moves (e ∷ es) ≡ thread_moves (e ∷ []) + thread_moves es)
      × (thread_moves (e ∷ []) ≤ 1)
thread_moves-cons e es = ground arith

pushed-cons : (e : Event) (es : List Event) → pushed (e ∷ es) ≡ pushed (e ∷ []) + pushed es
pushed-cons e es = ground arith

module _ (w : WorldFile) where
  thread_step-less :
      (n : ℕ) (t : Thread) (s : Serving)
      → s.thread ≡ t
      → IsEnding s
      → IsEnding (thread_step w n t s)
        × (left (thread_step w n t s).thread (thread_step w n t s).inbox ≤ left t s.inbox - 1)
  unfolding thread_step does
  thread_step-less n looping s h k =
      let (ends, less) = serve_next-less n s.inbox s h (ground (arith, h, k)) in
      (ends, omega (arith, less))
  thread_step-less n starting s h k = absurd (ground (arith, h, k))
  thread_step-less n hosting s h k = absurd (ground (arith, h, k))
  thread_step-less n announcing s h k = absurd (ground (arith, h, k))
  thread_step-less n loading s h k = absurd (ground (arith, h, k))
  thread_step-less n lost s h k = absurd (ground (arith, h, k))
  thread_step-less n leaving s h k = (inl (omega arith), omega arith)
  thread_step-less n closing s h k = (inl (omega arith), omega arith)
  thread_step-less n closed s h k = (inl (omega arith), omega arith)
  thread_step-less n quitting s h k = (inl (omega arith), omega arith)
  thread_step-less n ended s h k = (k, ground (arith, h))

  pub owner-same :
      (o : Owner) (s : Serving)
      → ((owner_step o s).thread ≡ s.thread) × ((owner_step o s).inbox ≡ s.inbox)
  unfolding owner_step construct await_end
  owner-same o s = (ground arith, ground arith)

  client-less :
      (c : Call) (s : Serving)
      → IsEnding s
      → IsEnding (client_step c s)
        × (left (client_step c s).thread (client_step c s).inbox
            ≤ left s.thread s.inbox + pushed (of_client c ∷ []))
  unfolding client_step does
  client-less (pushes msg) s k = (
    ground (arith, k, append-has_shutdown s.inbox msg),
    ground (arith, append-length s.inbox msg),
  )
  client-less (adds c) s k = (k, omega arith)
  client-less (removes c) s k = (k, omega arith)
  client-less (looks_up c) s k = (k, omega arith)
  client-less (pushes_transforms ts) s k = (k, omega arith)
  client-less ticks s k = (k, omega arith)

  step-less :
      (e : Event) (s : Serving)
      → IsEnding s
      → IsEnding (step w e s)
        × (left (step w e s).thread (step w e s).inbox
            ≤ left s.thread s.inbox - thread_moves (e ∷ []) + pushed (e ∷ []))
  unfolding step notify_all
  step-less of_owner s k =
      let (thread, inbox) = owner-same s.owner s in
      (ground (arith, k, thread, inbox), ground (arith, thread, inbox))
  step-less (of_thread n) s k =
      let (ends, less) = thread_step-less n s.thread s refl k in (ends, omega (arith, less))
  step-less (of_client c) s k = elim (Bool-cases (is_built s.owner)) [
    | inl h ↦ rw h (let (ends, less) = client-less c s k in (ends, omega (arith, less)))
    | inr h ↦ rw h (k, omega arith)
  ]
  step-less spurious s k = (k, omega arith)

  pub step_ended : (e : Event) (s : Serving) → rank s.thread ≡ 0 → rank (step w e s).thread ≡ 0
  unfolding step notify_all
  step_ended of_owner s h = ground (arith, h, owner-same s.owner s)
  step_ended (of_thread n) s h =
      ground (arith, h, thread_step-less n s.thread s refl (inl (omega (arith, h))))
  step_ended (of_client c) s h = elim (Bool-cases (is_built s.owner)) [
    | inl b ↦ rw b (ground (arith, h, client-same c s))
    | inr b ↦ rw b h
  ]
  step_ended spurious s h = h

  pub steps_ended :
      (es : List Event) (s : Serving) → rank s.thread ≡ 0 → rank (steps w es s).thread ≡ 0
  unfolding steps
  steps_ended [] s h = h
  steps_ended (e ∷ es) s h = steps_ended es (step w e s) (step_ended e s h)

  -- Once the thread has moved as often as is left and messages have been pushed meanwhile, it has ended.
  pub steps-ends :
      (es : List Event) (s : Serving)
      → IsEnding s
      → left s.thread s.inbox + pushed es ≤ thread_moves es
      → rank (steps w es s).thread ≡ 0
  unfolding steps
  steps-ends [] s k h = ground (arith, k)
  steps-ends (e ∷ es) s k h = elim (Bool-cases (rank s.thread == 0)) [
    | inl z ↦ steps_ended es (step w e s) (step_ended e s (ground (arith, z)))
    | inr z ↦
        let (ends, less) = step-less e s k in
        steps-ends es (step w e s) ends
          (ground (arith, less, thread_moves-cons e es, pushed-cons e es, h, z))
  ]
