-- ===== src/Queue/Lockless/Invariant.antt =====
-- What holds of the lockless queue between any two steps.
pub mod Producer
pub mod Consumer
use quintses.Common.{
  ℕ, ◌≡◌, ◌≢◌, refl, Bool, true, false, Option, none, some, List, [], ◌∷◌, arith, ◌==◌, is_some,
  inl, inr, ◌⊎◌,
}
use quintses.Queue.Lockless.{
  QueueItem, Memory, Push, Pop, System, Step, Reach, resting, allocate, link, publish, load,
  read_next, unlink, read_value, discard, popped, update, write, swap_top, set_pusher, init,
}
use quintses.Queue.Lockless.Chain.{
  front, member, Chain, Chain-update, member-ne_zero, not-member_of_none,
}

module _ {ℓ} {A : Type ℓ} where
  -- The item that a producer has allocated and not yet published.
  abbrev pub owned : Push A → Option ℕ
  owned (link p) = some p
  owned (publish p) = some p
  owned st = none

  abbrev pub next_of : Option (QueueItem A) → Option ℕ
  next_of none = none
  next_of (some item) = some item.next

  -- An allocated item that no thread can reach through the chain.
  abbrev pub Private : (ℕ → Option (QueueItem A)) → List (ℕ × A) → ℕ → Type 0
  Private cell xs p = (member p xs ≡ false) × (is_some (cell p) ≡ true)

  -- An item that no producer owns either.
  abbrev pub Unowned : (ℕ → Push A) → ℕ → Type 0
  Unowned pushers p = (i : ℕ) → owned (pushers i) ≢ some p

  -- What the locals of the consumer say about shared memory.
  abbrev pub IsFresh : (ℕ → Option (QueueItem A)) → (ℕ → Push A) → List (ℕ × A) → Pop A → Type 0
  IsFresh cell pushers xs (read_next p) = member p xs ≡ true
  IsFresh cell pushers xs (unlink p n) = (member p xs ≡ true) × (next_of (cell p) ≡ some n)
  IsFresh cell pushers xs (read_value p) = Private cell xs p × Unowned pushers p
  IsFresh cell pushers xs (discard p v) = Private cell xs p × Unowned pushers p
  IsFresh cell pushers xs st = Unit

  pub record Inv (m : Memory A) (pushers : ℕ → Push A) (popper : Pop A) (xs : List (ℕ × A))
      : Type ℓ where
    pub top : m.top ≡ front xs
    pub chain : Chain m.cell xs
    pub owns : (i p : ℕ) → owned (pushers i) ≡ some p → (p ≢ 0) × Private m.cell xs p
    pub apart : (i j p : ℕ) → owned (pushers i) ≡ some p → owned (pushers j) ≡ some p → i ≡ j
    pub taker : IsFresh m.cell pushers xs popper

  -- A step of a producer leaves alone what the consumer relies on.
  record Spares (cell cell' : ℕ → Option (QueueItem A)) (pushers pushers' : ℕ → Push A)
      (xs ys : List (ℕ × A)) : Type ℓ where
    members : (q : ℕ) → member q xs ≡ true → (member q ys ≡ true) × (cell' q ≡ cell q)
    privates :
        (q : ℕ) → Private cell xs q → Unowned pushers q → Private cell' ys q × Unowned pushers' q

  Spares-IsFresh :
      {cell cell' : ℕ → Option (QueueItem A)} {pushers pushers' : ℕ → Push A} {xs ys : List (ℕ × A)}
      (st : Pop A)
      → Spares cell cell' pushers pushers' xs ys
      → IsFresh cell pushers xs st
      → IsFresh cell' pushers' ys st
  Spares-IsFresh load h f = tt
  Spares-IsFresh (read_next p) h f = (h.members p f).0
  Spares-IsFresh (unlink p n) h f = ground (arith, h.members p f.0)
  Spares-IsFresh (read_value p) h f = h.privates p f.0 f.1
  Spares-IsFresh (discard p v) h f = h.privates p f.0 f.1
  Spares-IsFresh (popped r) h f = tt

  pub Inv-init : Inv init.memory init.pushers init.popper []
  unfolding init
  Inv-init = record {
    top = refl;
    chain = tt;
    owns = λ i p h. cc;
    apart = λ i j p h h'. cc;
    taker = tt;
  }
