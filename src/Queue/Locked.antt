-- ===== src/Queue/Locked.antt =====
-- The class `lockedQueue`: a `std::deque` under a mutex, and a condition variable on which the one
-- consumer sleeps. What a thread does while it holds the mutex is one step.
pub mod Wakeup
use quintses.Common.{
  ℕ, suc, ◌+◌, ◌≡◌, Bool, true, false, Option, none, some, List, [], ◌∷◌, ◌++◌, if◌then◌else◌,
}

module _ {ℓ} {A : Type ℓ} where
  abbrev pub is_empty : List A → Bool
  is_empty [] = true
  is_empty (x ∷ xs) = false

  -- `push`: the new deque, and whether `notify_one` is called after the unlock.
  unfoldable pub push : A → List A → List A × Bool
  push t queue = (queue ++ t ∷ [], is_empty queue)

  -- `try_pop`: the value, or none for the result false.
  unfoldable pub try_pop : List A → Option A × List A
  try_pop [] = (none, [])
  try_pop (val ∷ queue) = (some val, queue)

-- Where the consumer stands: outside, in `wait_pop` with the mutex before the test of the loop, or
-- asleep in `m_queue_cond.wait`.
pub data Consumer : Type 0 where
  outside checking waiting : Consumer

-- What `notify_one` does to the consumer.
abbrev pub wake : Consumer → Consumer
wake waiting = checking
wake c = c

-- `due` counts the calls of `notify_one` that producers have still to make; `sent` and `got` are
-- the values pushed and popped so far.
pub record Monitor {ℓ} (A : Type ℓ) : Type ℓ where
  pub queue : List A
  pub due : ℕ
  pub consumer : Consumer
  pub sent : List A
  pub got : List A

module _ {ℓ} {A : Type ℓ} where
  -- The value that `try_pop` or `wait_pop` takes is the front of the deque.
  abbrev pub take : Monitor A → A → Monitor A
  take s v = record s { queue = (try_pop s.queue).1; consumer = outside; got = s.got ++ v ∷ [] }

  abbrev pub init : Monitor A
  init = record { queue = []; due = 0; consumer = outside; sent = []; got = [] }

  pub data Step : Monitor A → Monitor A → Type ℓ where
    pushes :
        (s : Monitor A) (v : A)
        → Step s (record s {
          queue = (push v s.queue).0;
          due = if (push v s.queue).1 then s.due + 1 else s.due;
          sent = s.sent ++ v ∷ [];
        })
    notifies :
        (s : Monitor A) (n : ℕ)
        → s.due ≡ suc n
        → Step s (record s { due = n; consumer = wake s.consumer })
    enters : (s : Monitor A) → s.consumer ≡ outside → Step s (record s { consumer = checking })
    sleeps :
        (s : Monitor A)
        → s.consumer ≡ checking
        → is_empty s.queue ≡ true
        → Step s (record s { consumer = waiting })
    wakes : (s : Monitor A) → s.consumer ≡ waiting → Step s (record s { consumer = checking })
    returns :
        (s : Monitor A) (v : A)
        → s.consumer ≡ checking
        → (try_pop s.queue).0 ≡ some v
        → Step s (take s v)
    tries :
        (s : Monitor A) (v : A)
        → s.consumer ≡ outside
        → (try_pop s.queue).0 ≡ some v
        → Step s (take s v)

  pub data Reach : Monitor A → Type ℓ where
    start : Reach init
    later : {s t : Monitor A} → Reach s → Step s t → Reach t
