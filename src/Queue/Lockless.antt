-- ===== src/Queue/Lockless.antt =====
-- The class `locklessQueue`. Every access to shared memory is a step of its own, so that the steps
-- of any number of threads interleave. A step is `none` where the code touches memory that is not
-- allocated. `head` is never freed, so `top` stands for `head->next`.
pub mod Chain
pub mod Invariant
pub mod Safety
pub mod Order
use quintses.Common.{ℕ, ◌≡◌, ◌≢◌, Option, none, some, List, ◌==◌, if◌then◌else◌}

-- The class `QueueItem`; 0 is the null pointer.
pub record QueueItem {ℓ} (A : Type ℓ) : Type ℓ where
  pub value : A
  pub next : ℕ

pub record Memory {ℓ} (A : Type ℓ) : Type ℓ where
  pub cell : ℕ → Option (QueueItem A)
  pub top : ℕ

-- Where a thread stands in `push`.
pub data Push {ℓ} (A : Type ℓ) : Type ℓ where
  resting : Push A
  allocate : A → Push A
  link : ℕ → Push A
  publish : ℕ → Push A

-- Where a thread stands in `try_pop` or `wait_pop`; `popped none` is the result false.
pub data Pop {ℓ} (A : Type ℓ) : Type ℓ where
  load : Pop A
  read_next : ℕ → Pop A
  unlink : ℕ → ℕ → Pop A
  read_value : ℕ → Pop A
  discard : ℕ → A → Pop A
  popped : Option A → Pop A

module _ {ℓ} {A : Type ℓ} where
  abbrev pub update :
      (ℕ → Option (QueueItem A)) → ℕ → Option (QueueItem A) → ℕ → Option (QueueItem A)
  update cell p c q = if p == q then c else cell q

  abbrev pub write : Memory A → ℕ → Option (QueueItem A) → Memory A
  write m p c = record m { cell = update m.cell p c }

  -- `compareAndSwapPointer(head->next, old_val, new_val)` succeeds: `head->next` was `old_val`.
  abbrev pub swap_top : Memory A → ℕ → Memory A
  swap_top m p = record m { top = p }

  -- One step of `push`; `fresh` is what `new` returns.
  unfoldable pub step_push : ℕ → Memory A → Push A → Option (Memory A × Push A)
  step_push fresh m resting = some (m, resting)
  step_push fresh m (allocate v) =
      some (write m fresh (some (record { value = v; next = 0 })), link fresh)
  step_push fresh m (link p) = elim (m.cell p) [
    | none ↦ none
    | some item ↦ some (write m p (some (record item { next = m.top })), publish p)
  ]
  step_push fresh m (publish p) = elim (m.cell p) [
    | none ↦ none
    | some item ↦ if m.top == item.next then some (swap_top m p, resting) else some (m, link p)
  ]

  -- One step of `try_pop`.
  unfoldable pub step_pop : Memory A → Pop A → Option (Memory A × Pop A)
  step_pop m load = some (m, if m.top == 0 then popped none else read_next m.top)
  step_pop m (read_next p) = elim (m.cell p) [
    | none ↦ none
    | some item ↦ some (m, unlink p item.next)
  ]
  step_pop m (unlink p n) = if m.top == p then some (swap_top m n, read_value p) else some (m, load)
  step_pop m (read_value p) = elim (m.cell p) [
    | none ↦ none
    | some item ↦ some (m, discard p item.value)
  ]
  step_pop m (discard p v) = elim (m.cell p) [
    | none ↦ none
    | some item ↦ some (write m p none, popped (some v))
  ]
  step_pop m (popped r) = some (m, popped r)

  -- One step of `wait_pop`, which starts again where the queue is empty.
  unfoldable pub step_wait_pop : Memory A → Pop A → Option (Memory A × Pop A)
  unfolding step_pop
  step_wait_pop m load = some (m, if m.top == 0 then load else read_next m.top)
  step_wait_pop m st = step_pop m st

-- Any number of producers and one consumer, as in every queue of the program.
pub record System {ℓ} (A : Type ℓ) : Type ℓ where
  pub memory : Memory A
  pub pushers : ℕ → Push A
  pub popper : Pop A

module _ {ℓ} {A : Type ℓ} where
  abbrev pub set_pusher : (ℕ → Push A) → ℕ → Push A → ℕ → Push A
  set_pusher f i st j = if i == j then st else f j

  -- The constructor `locklessQueue()`.
  unfoldable pub init : System A
  init = record {
    memory = record { cell = λ p. none; top = 0 };
    pushers = λ i. resting;
    popper = popped none;
  }

  -- What a scheduler may do next. `new` returns an address that is not null and not in use.
  pub data Step : System A → System A → Type ℓ where
    begin_push :
        (s : System A) (i : ℕ) (v : A)
        → s.pushers i ≡ resting
        → Step s (record s { pushers = set_pusher s.pushers i (allocate v) })
    push :
        (s : System A) (i fresh : ℕ) (m : Memory A) (st : Push A)
        → fresh ≢ 0
        → s.memory.cell fresh ≡ none
        → step_push fresh s.memory (s.pushers i) ≡ some (m, st)
        → Step s (record s { memory = m; pushers = set_pusher s.pushers i st })
    begin_pop :
        (s : System A) (r : Option A) → s.popper ≡ popped r → Step s (record s { popper = load })
    pop :
        (s : System A) (m : Memory A) (st : Pop A)
        → step_pop s.memory s.popper ≡ some (m, st)
        → Step s (record s { memory = m; popper = st })
    wait_pop :
        (s : System A) (m : Memory A) (st : Pop A)
        → step_wait_pop s.memory s.popper ≡ some (m, st)
        → Step s (record s { memory = m; popper = st })

  pub data Reach : System A → Type ℓ where
    start : Reach init
    later : {s t : System A} → Reach s → Step s t → Reach t
