-- ===== src/Queue/Lockless/Safety.antt =====
-- Memory safety of the lockless queue, and what its steps do to its contents.
use mathlib.Core.Path.{subst}
use quintses.Common.{
  ℕ, ◌≡◌, ◌≢◌, refl, ap, Option, none, some, List, [], ◌∷◌, arith, ◌==◌, inl, inr, Bool-cases,
  Option-cases,
}
use quintses.Queue.Lockless.{
  Memory, Push, Pop, System, Step, Reach, resting, allocate, link, publish, load, read_next, unlink,
  read_value, discard, popped, begin_push, push, begin_pop, pop, wait_pop, start, later, step_push,
  step_pop, step_wait_pop, set_pusher,
}
use quintses.Queue.Lockless.Chain.{member-ne_zero}
use quintses.Queue.Lockless.Invariant.{owned, IsFresh, Inv, Inv-init}
use quintses.Queue.Lockless.Invariant.Producer.{idle-Inv, allocate-Inv, link-Inv, publish-Inv}
use quintses.Queue.Lockless.Invariant.Consumer.{
  turn-Inv, front-member, unlink-Inv, discard-Inv, top-cons,
}

module _ {ℓ} {A : Type ℓ} where
  abbrev pub Holds : System A → List (ℕ × A) → Type ℓ
  Holds s xs = Inv s.memory s.pushers s.popper xs

  -- One step seen from outside: the contents stay, gain an item in front, or lose the front one to
  -- the consumer.
  pub data Change (t : Pop A) (xs : List (ℕ × A)) (ys : List (ℕ × A)) : Type ℓ where
    same : ys ≡ xs → Change t xs ys
    pushed : (p : ℕ) (v : A) → ys ≡ (p, v) ∷ xs → Change t xs ys
    removed : (p : ℕ) (v : A) → xs ≡ (p, v) ∷ ys → t ≡ read_value p → Change t xs ys

-- What holds of the outcome that a step has.
abbrev Ensures {ℓ κ} : {A B : Type ℓ} → (A → B → Type κ) → Option (A × B) → Type κ
Ensures P none = ⊥ × Unit
Ensures P (some (a, b)) = P a b

Ensures_lem {ℓ κ} :
    {A B : Type ℓ} (P : A → B → Type κ) {o : Option (A × B)} {a : A} {b : B}
    → o ≡ some (a, b)
    → Ensures P o
    → P a b
Ensures_lem P e h = subst (Ensures P) e h

defined {ℓ κ} : {A B : Type ℓ} (P : A → B → Type κ) {o : Option (A × B)} → Ensures P o → o ≢ none
defined P h e = (subst (Ensures P) e h).0

module _ {ℓ} {A : Type ℓ} (s : System A) (xs : List (ℕ × A)) (inv : Holds s xs) where
  abbrev AfterPush : ℕ → Memory A → Push A → Type ℓ
  AfterPush i m st =
      (ys : List (ℕ × A)) × Inv m (set_pusher s.pushers i st) s.popper ys × Change s.popper xs ys

  abbrev AfterPop : Memory A → Pop A → Type ℓ
  AfterPop m st = (ys : List (ℕ × A)) × Inv m s.pushers st ys × Change st xs ys

  -- A producer never touches memory that is not allocated, whatever address `new` returns.
  push-safe :
      (i fresh : ℕ) (at : Push A)
      → fresh ≢ 0
      → s.memory.cell fresh ≡ none
      → s.pushers i ≡ at
      → Ensures (AfterPush i) (step_push fresh s.memory at)
  unfolding step_push
  push-safe i fresh resting ne unused e = (xs, idle-Inv inv i resting (λ q h. cc), same refl)
  push-safe i fresh (allocate v) ne unused e = (xs, allocate-Inv inv i fresh _ ne unused, same refl)
  push-safe i fresh (link p) ne unused e = elim (Option-cases (s.memory.cell p)) [
    | inl free ↦ absurd (ground (arith, inv.owns i p))
    | inr (item, c) ↦ rw (c, step_push) (xs, link-Inv inv i p _ (ap owned e), same refl)
  ]
  push-safe i fresh (publish p) ne unused e = elim (Option-cases (s.memory.cell p)) [
    | inl free ↦ absurd (ground (arith, inv.owns i p))
    | inr (item, c) ↦
        rw (c, step_push)
          (elim (Bool-cases (s.memory.top == item.next)) [
            | inl won ↦ rw won (
              (p, item.value) ∷ xs,
              publish-Inv inv i p item.value (ap owned e) (ground arith),
              pushed p item.value refl,
            )
            | inr lost ↦ rw lost (xs, idle-Inv inv i (link p) (λ q h. ground arith), same refl)
          ])
  ]

  knows : (at : Pop A) → s.popper ≡ at → IsFresh s.memory.cell s.pushers xs at
  knows at e = subst (IsFresh s.memory.cell s.pushers xs) e inv.taker

  pop-safe : (at : Pop A) → s.popper ≡ at → Ensures AfterPop (step_pop s.memory at)
  unfolding step_pop
  pop-safe load e = elim (Bool-cases (s.memory.top == 0)) [
    | inl empty ↦ rw empty (xs, turn-Inv (popped none) inv tt, same refl)
    | inr more ↦
        rw more
          (xs, turn-Inv (read_next s.memory.top) inv (front-member inv (ground arith)), same refl)
  ]
  pop-safe (read_next p) e =
      let f = knows (read_next p) e in
      elim (Option-cases (s.memory.cell p)) [
        | inl free ↦ absurd (ground (arith, member-ne_zero s.memory.cell p xs inv.chain f))
        | inr (item, c) ↦
            rw (c, step_pop) (xs, turn-Inv (unlink p item.next) inv (f, ground arith), same refl)
      ]
  pop-safe (unlink p n) e =
      let f = knows (unlink p n) e in
      elim (Bool-cases (s.memory.top == p)) [
        | inl won ↦
            let (v, ys, q) = top-cons p inv (ground arith) f.0 in
            rw won (
              ys,
              unlink-Inv p n v ys (subst (Inv s.memory s.pushers s.popper) q inv) f.1,
              removed p v q refl,
            )
        | inr lost ↦ rw lost (xs, turn-Inv load inv tt, same refl)
      ]
  pop-safe (read_value p) e =
      let f = knows (read_value p) e in
      elim (Option-cases (s.memory.cell p)) [
        | inl free ↦ absurd (ground (arith, f.0.1))
        | inr (item, c) ↦ rw (c, step_pop) (xs, turn-Inv (discard p item.value) inv f, same refl)
      ]
  pop-safe (discard p v) e =
      let f = knows (discard p v) e in
      elim (Option-cases (s.memory.cell p)) [
        | inl free ↦ absurd (ground (arith, f.0.1))
        | inr (item, c) ↦ rw (c, step_pop) (xs, discard-Inv p (some v) inv f.0 f.1, same refl)
      ]
  pop-safe (popped r) e = (xs, turn-Inv (popped r) inv tt, same refl)

  wait_pop-safe : (at : Pop A) → s.popper ≡ at → Ensures AfterPop (step_wait_pop s.memory at)
  unfolding step_wait_pop
  wait_pop-safe load e = elim (Bool-cases (s.memory.top == 0)) [
    | inl empty ↦ rw empty (xs, turn-Inv load inv tt, same refl)
    | inr more ↦
        rw more
          (xs, turn-Inv (read_next s.memory.top) inv (front-member inv (ground arith)), same refl)
  ]
  wait_pop-safe (read_next p) e = pop-safe (read_next p) e
  wait_pop-safe (unlink p n) e = pop-safe (unlink p n) e
  wait_pop-safe (read_value p) e = pop-safe (read_value p) e
  wait_pop-safe (discard p v) e = pop-safe (discard p v) e
  wait_pop-safe (popped r) e = pop-safe (popped r) e

module _ {ℓ} {A : Type ℓ} where
  -- With one consumer, a step of any thread leaves the contents, puts an item in front of them, or
  -- hands the front item to the consumer.
  pub step-Change :
      {s t : System A} {xs : List (ℕ × A)}
      → Step s t
      → Holds s xs
      → (ys : List (ℕ × A)) × Holds t ys × Change t.popper xs ys
  step-Change {xs} (begin_push s i v e) inv =
      (xs, idle-Inv inv i (allocate v) (λ q h. cc), same refl)
  step-Change {xs} (push s i fresh m st ne unused e) inv =
      (Ensures_lem (AfterPush s xs inv i) e (push-safe s xs inv i fresh _ ne unused refl))
  step-Change {xs} (begin_pop s r e) inv = (xs, turn-Inv load inv tt, same refl)
  step-Change {xs} (pop s m st e) inv = Ensures_lem (AfterPop s xs inv) e (pop-safe s xs inv _ refl)
  step-Change {xs} (wait_pop s m st e) inv =
      Ensures_lem (AfterPop s xs inv) e (wait_pop-safe s xs inv _ refl)

  pub Reach-Holds : {s : System A} → Reach s → (xs : List (ℕ × A)) × Holds s xs
  Reach-Holds start = ([], Inv-init)
  Reach-Holds (later r st) =
      let (xs, inv) = Reach-Holds r in let (ys, inv', _) = step-Change st inv in (ys, inv')

  -- With one consumer, no thread ever reads, writes or frees memory that is not allocated: the
  -- next step of every thread is defined in every reachable state.
  pub no_fault :
      {s : System A} (i fresh : ℕ)
      → Reach s
      → fresh ≢ 0
      → s.memory.cell fresh ≡ none
      → (step_push fresh s.memory (s.pushers i) ≢ none)
        × (step_pop s.memory s.popper ≢ none)
        × (step_wait_pop s.memory s.popper ≢ none)
  no_fault {s} i fresh r ne unused =
      let (xs, inv) = Reach-Holds r in
      (
        defined _ (push-safe s xs inv i fresh _ ne unused refl),
        defined _ (pop-safe s xs inv _ refl),
        defined _ (wait_pop-safe s xs inv _ refl),
      )
