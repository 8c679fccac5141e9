-- ===== src/Examples/Queues.antt =====
-- The two queues with two messages.
use quintses.Common.{ℕ, suc, ◌≡◌, ◌≢◌, refl, some, none, List, [], ◌∷◌, ◌++◌, arith}
use quintses.Queue.Lockless as Lockless
use quintses.Queue.Lockless.{Memory, System, link, step_push, step_pop, step_wait_pop}
use quintses.Queue.Lockless.Chain as Chain
use quintses.Queue.Lockless.Invariant.{Inv-init}
use quintses.Queue.Lockless.Safety.{Holds, Change, step-Change, no_fault}
use quintses.Queue.Lockless.Order.{push_all, drain, drain-push_all}
use quintses.Queue.Locked as Locked
use quintses.Queue.Locked.{Monitor, waiting, checking}
use quintses.Queue.Locked.Wakeup.{no_lost_wakeup}

abbrev empty : Memory ℕ
empty = record { cell = λ p. none; top = 0 }

abbrev pushing : System ℕ
pushing = record (Lockless.init {A = ℕ}) {
  pushers = Lockless.set_pusher (Lockless.init {A = ℕ}).pushers 0 (Lockless.allocate 7);
}

pushing-Reach : Lockless.Reach pushing
unfolding Lockless.init
pushing-Reach = Lockless.later Lockless.start (Lockless.begin_push Lockless.init 0 7 refl)

abbrev allocated : System ℕ
allocated = record pushing {
  memory = Lockless.write pushing.memory 10 (some (record { value = 7; next = 0 }));
  pushers = Lockless.set_pusher pushing.pushers 0 (link 10);
}

allocated-Reach : Lockless.Reach allocated
unfolding Lockless.init step_push
allocated-Reach =
    Lockless.later pushing-Reach (Lockless.push pushing 0 10 _ _ (omega arith) refl refl)

no_fault_example :
    (step_push 11 allocated.memory (allocated.pushers 0) ≢ none)
    × (step_pop allocated.memory allocated.popper ≢ none)
    × (step_wait_pop allocated.memory allocated.popper ≢ none)
unfolding Lockless.init
no_fault_example = no_fault 0 11 allocated-Reach (omega arith) refl

step-Change_example : (ys : List (ℕ × ℕ)) × Holds pushing ys × Change pushing.popper [] ys
unfolding Lockless.init
step-Change_example = step-Change (Lockless.begin_push Lockless.init 0 7 refl) Inv-init

abbrev items : List (ℕ × ℕ)
items = (10, 7) ∷ (11, 8) ∷ []

drain-push_all_example :
    (m' m'' : Memory ℕ) × (push_all items empty ≡ some m')
    × (drain 3 m' ≡ some (m'', 8 ∷ 7 ∷ []))
    × Chain.Holds m'' []
drain-push_all_example =
    drain-push_all items empty (record { top = refl; chain = tt })
      (omega arith, refl, refl, (omega arith, refl, refl, tt))

abbrev asleep : Monitor ℕ
asleep = record { queue = 7 ∷ []; due = 1; consumer = waiting; sent = 7 ∷ []; got = [] }

asleep-Reach : Locked.Reach asleep
unfolding Locked.push
asleep-Reach =
    Locked.later
      (Locked.later (Locked.later Locked.start (Locked.enters Locked.init refl))
        (Locked.sleeps _ refl refl))
      (Locked.pushes _ 7)

no_lost_wakeup_example :
    (n : ℕ) × (asleep.due ≡ suc n)
    × (t u : Monitor ℕ) × (t ≡ record asleep { due = n; consumer = checking })
    × Locked.Step asleep t
    × Locked.Step t u
    × (u.got ≡ asleep.got ++ 7 ∷ [])
    × (u.queue ≡ [])
no_lost_wakeup_example = no_lost_wakeup 7 [] asleep-Reach refl refl
