-- ===== src/Queue/Lockless/Invariant/Producer.antt =====
-- The steps of `push` keep the invariant.
use quintses.Common.{
  ℕ, ◌≡◌, ◌≢◌, refl, true, false, Option, none, some, List, ◌∷◌, arith, ◌==◌, is_some, inl, inr,
  ◌⊎◌, Bool-cases,
}
use quintses.Queue.Lockless.{
  QueueItem, Memory, Push, Pop, resting, link, publish, update, write, swap_top, set_pusher,
}
use quintses.Queue.Lockless.Chain.{member, Chain-update, not-member_of_none}
use quintses.Queue.Lockless.Invariant.{owned, Private, Unowned, Inv, Spares, Spares-IsFresh}

module _ {ℓ} {A : Type ℓ} (cell : ℕ → Option (QueueItem A)) (pushers : ℕ → Push A)
    (xs : List (ℕ × A)) (i : ℕ) where
  -- Memory stays, and the producer owns no more than before.
  Spares-idle :
      (st : Push A)
      → ((q : ℕ) → owned st ≡ some q → owned (pushers i) ≡ some q)
      → Spares cell cell pushers (set_pusher pushers i st) xs xs
  Spares-idle st less = record {
    members = λ q h. (h, refl);
    privates = λ q h free. (h, λ j. ground (arith, free j, free i, less q));
  }

  Spares-write :
      (p : ℕ) (c : QueueItem A) (st : Push A)
      → member p xs ≡ false
      → owned st ≡ some p
      → (cell p ≡ none) ⊎ (owned (pushers i) ≡ some p)
      → Spares cell (update cell p (some c)) pushers (set_pusher pushers i st) xs xs
  Spares-write p c st out mine old = record {
    members = λ q h. (h, ground arith);
    privates = λ q h free. ((h.0, ground arith), λ j. ground (arith, free j, free i));
  }

  Spares-publish :
      (p : ℕ) (v : A)
      → owned (pushers i) ≡ some p
      → Spares cell cell pushers (set_pusher pushers i resting) xs ((p, v) ∷ xs)
  Spares-publish p v mine = record {
    members = λ q h. (ground arith, refl);
    privates = λ q h free. (ground (arith, free i), λ j. ground (arith, free j));
  }

set_pusher-apart {ℓ} :
    {A : Type ℓ} (pushers : ℕ → Push A) (i : ℕ) (st : Push A) (j k p : ℕ)
    → (owned (pushers j) ≡ some p → owned (pushers k) ≡ some p → j ≡ k)
    → (owned st ≡ some p → owned (pushers j) ≡ some p → j ≡ i)
    → (owned st ≡ some p → owned (pushers k) ≡ some p → k ≡ i)
    → owned (set_pusher pushers i st j) ≡ some p
    → owned (set_pusher pushers i st k) ≡ some p
    → j ≡ k
set_pusher-apart pushers i st j k p both left right h h' = ground arith

-- What a producer owns after a move, it owned before or has just taken.
set_pusher-owns {ℓ κ} :
    {A : Type ℓ} {B : Type κ} (pushers : ℕ → Push A) (i : ℕ) (st : Push A) (j p : ℕ)
    → owned (set_pusher pushers i st j) ≡ some p
    → (owned st ≡ some p → B)
    → (owned (pushers j) ≡ some p → B)
    → B
set_pusher-owns pushers i st j p h new old = elim (Bool-cases (i == j)) [
  | inl e ↦ new (rw e at h)
  | inr e ↦ old (rw e at h)
]

allocated-update {ℓ} :
    {A : Type ℓ} (cell : ℕ → Option (QueueItem A)) (p : ℕ) (c : QueueItem A) (q : ℕ)
    → is_some (cell q) ≡ true
    → is_some (update cell p (some c) q) ≡ true
allocated-update cell p c q h = ground arith

module _ {ℓ} {A : Type ℓ} {m : Memory A} {pushers : ℕ → Push A} {popper : Pop A} {xs : List (ℕ × A)}
    (inv : Inv m pushers popper xs) (i : ℕ) where
  -- The producer moves to a place where it owns no more than before, and memory stays.
  pub idle-Inv :
      (st : Push A)
      → ((q : ℕ) → owned st ≡ some q → owned (pushers i) ≡ some q)
      → Inv m (set_pusher pushers i st) popper xs
  idle-Inv st less = record {
    top = inv.top;
    chain = inv.chain;
    owns = λ j p h. ground (arith, inv.owns j p, less p);
    apart = λ j k p h h'. ground (arith, inv.apart j k p, inv.apart i k p, inv.apart j i p, less p);
    taker = Spares-IsFresh popper (Spares-idle m.cell pushers xs i st less) inv.taker;
  }

  pub allocate-Inv :
      (fresh : ℕ) (c : QueueItem A)
      → fresh ≢ 0
      → m.cell fresh ≡ none
      → Inv (write m fresh (some c)) (set_pusher pushers i (link fresh)) popper xs
  allocate-Inv fresh c ne unused = record {
    top = inv.top;
    chain = Chain-update m.cell fresh (some c) xs out inv.chain;
    owns = λ j p h.
        set_pusher-owns pushers i (link fresh) j p h (there p) (λ k. kept p (inv.owns j p k));
    apart = λ j k p h h'.
        set_pusher-apart pushers i (link fresh) j k p (inv.apart j k p) (only p j) (only p k) h h';
    taker =
        Spares-IsFresh popper
          (Spares-write m.cell pushers xs i fresh c (link fresh) out refl (inl unused)) inv.taker;
  }
    where
      new : Unowned pushers fresh
      new j h = ground (arith, inv.owns j fresh)

      only : (q j : ℕ) → some fresh ≡ some q → owned (pushers j) ≡ some q → j ≡ i
      only q j e h = ground (arith, new j)

      out : member fresh xs ≡ false
      out = not-member_of_none m.cell fresh xs inv.chain unused

      there : (p : ℕ) → some fresh ≡ some p → (p ≢ 0) × Private (update m.cell fresh (some c)) xs p
      there p e = ground (arith, out)

      kept :
          (p : ℕ)
          → (p ≢ 0) × Private m.cell xs p
          → (p ≢ 0) × Private (update m.cell fresh (some c)) xs p
      kept p own = (own.0, (own.1.0, allocated-update m.cell fresh c p own.1.1))

  pub link-Inv :
      (p : ℕ) (c : QueueItem A)
      → owned (pushers i) ≡ some p
      → Inv (write m p (some c)) (set_pusher pushers i (publish p)) popper xs
  link-Inv p c mine = record {
    top = inv.top;
    chain = Chain-update m.cell p (some c) xs out inv.chain;
    owns = λ j q h. ground (arith, inv.owns j q, inv.owns i q);
    apart = λ j k q h h'. ground (arith, inv.apart j k q, inv.apart i k q, inv.apart j i q);
    taker =
        Spares-IsFresh popper (Spares-write m.cell pushers xs i p c (publish p) out refl (inr mine))
          inv.taker;
  }
    where
      out : member p xs ≡ false
      out = (inv.owns i p mine).1.0

  pub publish-Inv :
      (p : ℕ) (v : A)
      → owned (pushers i) ≡ some p
      → m.cell p ≡ some (record { value = v; next = m.top })
      → Inv (swap_top m p) (set_pusher pushers i resting) popper ((p, v) ∷ xs)
  publish-Inv p v mine c = record {
    top = refl;
    chain = (own.0, ground (arith, inv.top), own.1.0, inv.chain);
    owns = λ j q h. ground (arith, inv.owns j q, inv.apart i j q);
    apart = λ j k q h h'. ground (arith, inv.apart j k q);
    taker = Spares-IsFresh popper (Spares-publish m.cell pushers xs i p v mine) inv.taker;
  }
    where
      own : (p ≢ 0) × Private m.cell xs p
      own = inv.owns i p mine
