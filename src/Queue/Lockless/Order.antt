-- ===== src/Queue/Lockless/Order.antt =====
-- The lockless queue with no interference: what one thread pushes comes back newest first.
use mathlib.Core.List.{reverse, reverse_aux}
use mathlib.Core.Option
use quintses.Common.{
  ℕ, zero, suc, ◌<◌, ◌≡◌, ◌≢◌, refl, false, Option, none, some, List, [], ◌∷◌, arith, length,
  length-reverse_aux,
}
use quintses.Queue.Lockless.{
  QueueItem, Memory, Push, Pop, resting, allocate, load, popped, write, swap_top, step_push,
  step_pop,
}
use quintses.Queue.Lockless.Chain.{front, member, Holds, Chain-update, not-member_of_none}

module _ {ℓ} {A : Type ℓ} where
  -- `push` from where it stands to its end, on `fuel` steps.
  run_push : ℕ → ℕ → Memory A → Push A → Option (Memory A)
  run_push zero fresh m st = none
  run_push (suc fuel) fresh m resting = some m
  run_push (suc fuel) fresh m st = elim (step_push fresh m st) [
    | none ↦ none
    | some (m', st') ↦ run_push fuel fresh m' st'
  ]

  -- `push(t)` with no other thread at work: four steps are enough.
  pub push_alone : ℕ → A → Memory A → Option (Memory A)
  unfolding run_push step_push
  push_alone fresh v m = run_push 4 fresh m (allocate v)

  run_pop : ℕ → Memory A → Pop A → Option (Memory A × Option A)
  run_pop zero m st = none
  run_pop (suc fuel) m (popped r) = some (m, r)
  run_pop (suc fuel) m st = elim (step_pop m st) [
    | none ↦ none
    | some (m', st') ↦ run_pop fuel m' st'
  ]

  -- `try_pop(t)` with no other thread at work: six steps are enough.
  pub try_pop_alone : Memory A → Option (Memory A × Option A)
  unfolding run_pop step_pop
  try_pop_alone m = run_pop 6 m load

  -- The memory after `push`.
  pushed : ℕ → A → Memory A → Memory A
  pushed fresh v m =
      swap_top
        (write (write m fresh (some (record { value = v; next = 0 }))) fresh
          (some (record { value = v; next = m.top })))
        fresh

  push_alone-run :
      (fresh : ℕ) (v : A) (m : Memory A) → push_alone fresh v m ≡ some (pushed fresh v m)
  unfolding push_alone pushed
  push_alone-run fresh v m = ground arith

  pushed-Holds :
      (fresh : ℕ) (v : A) (m : Memory A) (xs : List (ℕ × A))
      → Holds m xs
      → fresh ≢ 0
      → m.cell fresh ≡ none
      → Holds (pushed fresh v m) ((fresh, v) ∷ xs)
  unfolding pushed
  pushed-Holds fresh v m xs h ne unused =
      let out = not-member_of_none m.cell fresh xs h.chain unused in
      record {
        top = refl;
        chain = (
          ne,
          ground (arith, h.top),
          out,
          Chain-update _ fresh _ xs out (Chain-update m.cell fresh _ xs out h.chain),
        );
      }

  -- The memory after `try_pop` took the item at `p`.
  taken : ℕ → ℕ → Memory A → Memory A
  taken p n m = write (swap_top m n) p none

  try_pop_alone-cons :
      (p : ℕ) (v : A) (m : Memory A) (xs : List (ℕ × A))
      → Holds m ((p, v) ∷ xs)
      → try_pop_alone m ≡ some (taken p (front xs) m, some v)
  unfolding try_pop_alone taken
  try_pop_alone-cons p v m xs h = ground arith

  try_pop_alone-nil : (m : Memory A) → Holds m [] → try_pop_alone m ≡ some (m, none)
  unfolding try_pop_alone
  try_pop_alone-nil m h = ground arith

  taken-Holds :
      (p : ℕ) (v : A) (m : Memory A) (xs : List (ℕ × A))
      → Holds m ((p, v) ∷ xs)
      → Holds (taken p (front xs) m) xs
  unfolding taken
  taken-Holds p v m xs h = record {
    top = refl;
    chain = Chain-update m.cell p none xs h.chain.2 h.chain.3;
  }

  pub push_all : List (ℕ × A) → Memory A → Option (Memory A)
  push_all [] m = some m
  push_all ((fresh, v) ∷ rest) m = elim (push_alone fresh v m) [
    | none ↦ none
    | some m' ↦ push_all rest m'
  ]

  -- `while(queue.try_pop(msg))` with the popped values in order, on `fuel` rounds.
  pub drain : ℕ → Memory A → Option (Memory A × List A)
  drain zero m = none
  drain (suc fuel) m = elim (try_pop_alone m) [
    | none ↦ none
    | some (m', none) ↦ some (m', [])
    | some (m', some v) ↦ Option.map (λ (m'', vs). (m'', v ∷ vs)) (drain fuel m')
  ]

  abbrev pub values : List (ℕ × A) → List A
  values [] = []
  values ((p, v) ∷ xs) = v ∷ values xs

  -- Distinct addresses that `new` may return, one after another.
  abbrev pub Usable : (ℕ → Option (QueueItem A)) → List (ℕ × A) → Type ℓ
  Usable cell [] = Unit
  Usable cell ((p, v) ∷ rest) =
      (p ≢ 0) × (cell p ≡ none) × (member p rest ≡ false) × Usable cell rest

  Usable-pushed :
      (fresh : ℕ) (v : A) (m : Memory A) (rest : List (ℕ × A))
      → member fresh rest ≡ false
      → Usable m.cell rest
      → Usable (pushed fresh v m).cell rest
  unfolding pushed
  Usable-pushed fresh v m [] out u = tt
  Usable-pushed fresh v m ((p, w) ∷ rest) out u =
      (u.0, ground arith, u.2, Usable-pushed fresh v m rest (ground arith) u.3)

  push_all-Holds :
      (items : List (ℕ × A)) (m : Memory A) (xs : List (ℕ × A))
      → Holds m xs
      → Usable m.cell items
      → (m' : Memory A) × (push_all items m ≡ some m') × Holds m' (reverse_aux items xs)
  unfolding push_all
  push_all-Holds [] m xs h u = (m, refl, h)
  push_all-Holds ((p, v) ∷ rest) m xs h u =
      let (m', e, h') =
        push_all-Holds rest (pushed p v m) ((p, v) ∷ xs) (pushed-Holds p v m xs h u.0 u.1)
          (Usable-pushed p v m rest u.2 u.3) in
      (m', rw (push_alone-run p v m, push_all) e, h')

  drain-Holds :
      (fuel : ℕ) (m : Memory A) (xs : List (ℕ × A))
      → Holds m xs
      → length xs < fuel
      → (m' : Memory A) × (drain fuel m ≡ some (m', values xs)) × Holds m' []
  unfolding drain
  drain-Holds zero m xs h lt = absurd (omega arith)
  drain-Holds (suc fuel) m [] h lt = (m, rw (try_pop_alone-nil m h, drain), h)
  drain-Holds (suc fuel) m ((p, v) ∷ xs) h lt =
      let (m', e, h') =
        drain-Holds fuel (taken p (front xs) m) xs (taken-Holds p v m xs h) (omega arith) in
      (m', rw (try_pop_alone-cons p v m xs h, drain, e), h')

  values-reverse_aux :
      (xs ys : List (ℕ × A)) → values (reverse_aux xs ys) ≡ reverse_aux (values xs) (values ys)
  values-reverse_aux [] ys = refl
  values-reverse_aux ((p, v) ∷ xs) ys = values-reverse_aux xs ((p, v) ∷ ys)

  -- A batch that one thread pushes into an empty queue is drained in reverse order, each value once.
  pub drain-push_all :
      (items : List (ℕ × A)) (m : Memory A)
      → Holds m []
      → Usable m.cell items
      → (m' m'' : Memory A) × (push_all items m ≡ some m')
        × (drain (suc (length items)) m' ≡ some (m'', reverse (values items)))
        × Holds m'' []
  drain-push_all items m h u =
      let (m', e, h') = push_all-Holds items m [] h u in
      let (m'', e', h'') =
        drain-Holds (suc (length items)) m' (reverse_aux items []) h'
          (omega (arith, length-reverse_aux items [])) in
      (m', m'', e, rw (← values-reverse_aux items []) e', h'')
