-- ===== src/Serving/Delivered.antt =====
-- A `ShutdownMessage` that has been pushed to a server that is built waits, until it ends the loop.
use quintses.Common.{ℕ, ◌≤◌, ◌≡◌, refl, true, List, [], ◌∷◌, ◌++◌, arith, Bool-cases, ◌⊎◌, inl, inr}
use quintses.Messages.Server.{ServerMsg, shutdown}
use quintses.Lifecycle.{notify_all}
use quintses.World.{load_world}
use quintses.Serving.Rounds.{rank, client-same, loaded-inbox, serve-Goes, loaded-Goes}
use quintses.Serving.Progress.{
  IsEnding, has_shutdown, append-has_shutdown, serve_next-less, owner-same,
}
use quintses.Serving.{
  WorldFile, is_built, Thread, Serving, Call, Event, does, owner_step, construct, await_end,
  serve_next, pick, thread_step, client_step, step, steps, loading, looping, of_owner, of_thread,
  of_client, spurious, pushes,
}

-- The messages that are pushed in a schedule.
unfoldable pub delivered : List Event → List ServerMsg
delivered [] = []
delivered (of_client (pushes msg) ∷ es) = msg ∷ delivered es
delivered (e ∷ es) = delivered es

-- The loop has been left, or a `ShutdownMessage` waits.
abbrev Waiting : Serving → Type 0
Waiting s = (rank s.thread ≤ 4) ⊎ (has_shutdown s.inbox ≡ true)

push-has_shutdown : (msgs : List ServerMsg) (c : ℕ) → has_shutdown (msgs ++ shutdown c ∷ []) ≡ true
push-has_shutdown [] c = refl
push-has_shutdown (msg ∷ msgs) c = ground (arith, push-has_shutdown msgs c)

serve_next-owner :
    (n : ℕ) (msgs : List ServerMsg) (s : Serving)
    → s.thread ≡ looping
    → (serve_next n msgs s).owner ≡ s.owner
unfolding serve_next
serve_next-owner n [] s h = refl
serve_next-owner n (msg ∷ msgs) s h = (serve-Goes (pick n msg msgs).0 (pick n msg msgs).1 s h).owner

module _ (w : WorldFile) where
  thread_step-Waiting :
      (n : ℕ) (t : Thread) (s : Serving) → s.thread ≡ t → Waiting s → Waiting (thread_step w n t s)
  unfolding thread_step does
  thread_step-Waiting n looping s h k =
      ground (arith, h, serve_next-less n s.inbox s h (ground (arith, k, h)))
  thread_step-Waiting n loading s h k =
      ground (arith, h, k, loaded-inbox (load_world w.dom w.math w.fuel w.file s.server) s)
  thread_step-Waiting n t s h k = ground (arith, h, k)

  client_step-Waiting : (c : Call) (s : Serving) → Waiting s → Waiting (client_step c s)
  unfolding client_step does
  client_step-Waiting (pushes msg) s k = ground (arith, k, append-has_shutdown s.inbox msg)
  client_step-Waiting c s k = ground (arith, k)

  step-Waiting : (e : Event) (s : Serving) → Waiting s → Waiting (step w e s)
  unfolding step
  step-Waiting of_owner s k = ground (arith, k, owner-same w s.owner s)
  step-Waiting (of_thread n) s k = thread_step-Waiting n s.thread s refl k
  step-Waiting (of_client c) s k = elim (Bool-cases (is_built s.owner)) [
    | inl h ↦ rw h (client_step-Waiting c s k)
    | inr h ↦ rw h k
  ]
  step-Waiting spurious s k = k

  steps-Waiting : (es : List Event) (s : Serving) → Waiting s → Waiting (steps w es s)
  unfolding steps
  steps-Waiting [] s k = k
  steps-Waiting (e ∷ es) s k = steps-Waiting es (step w e s) (step-Waiting e s k)

  thread_step-is_built :
      (n : ℕ) (t : Thread) (s : Serving)
      → s.thread ≡ t
      → is_built s.owner ≡ true
      → is_built (thread_step w n t s).owner ≡ true
  unfolding thread_step does notify_all
  thread_step-is_built n loading s h k = ground (arith, k, (loaded-Goes w s h).owner)
  thread_step-is_built n looping s h k = ground (arith, k, serve_next-owner n s.inbox s h)
  thread_step-is_built n t s h k = ground (arith, h, k)

  pub step-is_built :
      (e : Event) (s : Serving) → is_built s.owner ≡ true → is_built (step w e s).owner ≡ true
  unfolding step owner_step construct await_end notify_all
  step-is_built of_owner s h = ground (arith, h)
  step-is_built (of_thread n) s h = thread_step-is_built n s.thread s refl h
  step-is_built (of_client c) s h = rw h (ground (arith, h, client-same c s))
  step-is_built spurious s h = ground (arith, h)

  -- The step of a message that is pushed.
  push-Waiting :
      (c : ℕ) (s : Serving)
      → is_built s.owner ≡ true
      → Waiting (step w (of_client (pushes (shutdown c))) s)
  unfolding step client_step
  push-Waiting c s h = rw h (inr (push-has_shutdown s.inbox c))

  delivered-Waiting :
      (es : List Event) (s : Serving)
      → is_built s.owner ≡ true
      → has_shutdown (delivered es) ≡ true
      → Waiting (steps w es s)
  unfolding steps delivered
  delivered-Waiting [] s h k = absurd (ground (arith, k))
  delivered-Waiting (of_client (pushes (shutdown c)) ∷ es) s h k =
      steps-Waiting es _ (push-Waiting c s h)
  delivered-Waiting (e ∷ es) s h k = delivered-Waiting es (step w e s) (step-is_built e s h) k

  -- A `ShutdownMessage` is among the messages pushed to a server that is built, and its world is
  -- loaded: it ends the loop, or has ended it.
  pub delivered-IsEnding :
      (es : List Event) (s : Serving)
      → is_built s.owner ≡ true
      → has_shutdown (delivered es) ≡ true
      → rank (steps w es s).thread ≤ 5
      → IsEnding (steps w es s)
  delivered-IsEnding es s h k loaded = ground (arith, delivered-Waiting es s h k, loaded)
