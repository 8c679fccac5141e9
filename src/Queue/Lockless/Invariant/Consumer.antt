-- ===== src/Queue/Lockless/Invariant/Consumer.antt =====
-- The steps of `try_pop` and `wait_pop` keep the invariant.
use quintses.Common.{ℕ, ◌≡◌, ◌≢◌, true, Option, none, some, List, [], ◌∷◌, arith}
use quintses.Queue.Lockless.{Memory, Push, Pop, read_value, popped, write, swap_top}
use quintses.Queue.Lockless.Chain.{member, Chain-update}
use quintses.Queue.Lockless.Invariant.{next_of, Private, Unowned, IsFresh, Inv}

module _ {ℓ} {A : Type ℓ} {m : Memory A} {pushers : ℕ → Push A} {popper : Pop A} where
  -- The consumer moves on with what it knows, and memory stays.
  pub turn-Inv :
      {xs : List (ℕ × A)} (st : Pop A)
      → Inv m pushers popper xs
      → IsFresh m.cell pushers xs st
      → Inv m pushers st xs
  turn-Inv st inv f = record {
    top = inv.top;
    chain = inv.chain;
    owns = inv.owns;
    apart = inv.apart;
    taker = f;
  }

  -- `head->next` is not null: the item is the first of the chain.
  pub front-member :
      {xs : List (ℕ × A)} → Inv m pushers popper xs → m.top ≢ 0 → member m.top xs ≡ true
  front-member {xs = []} inv ne = absurd (ne inv.top)
  front-member {xs = (p, v) ∷ xs} inv ne = ground (arith, inv.top)

  -- The swap succeeds: the first item leaves the chain.
  pub unlink-Inv :
      (p n : ℕ) (v : A) (ys : List (ℕ × A))
      → Inv m pushers popper ((p, v) ∷ ys)
      → next_of (m.cell p) ≡ some n
      → Inv (swap_top m n) pushers (read_value p) ys
  unlink-Inv p n v ys inv e = record {
    top = ground (arith, inv.chain.1);
    chain = inv.chain.3;
    owns = λ j q h. ground (arith, inv.owns j q);
    apart = inv.apart;
    taker = ((inv.chain.2, ground (arith, inv.chain.1)), λ j h. ground (arith, inv.owns j p));
  }

  pub discard-Inv :
      {xs : List (ℕ × A)} (p : ℕ) (r : Option A)
      → Inv m pushers popper xs
      → Private m.cell xs p
      → Unowned pushers p
      → Inv (write m p none) pushers (popped r) xs
  discard-Inv {xs} p r inv own free = record {
    top = inv.top;
    chain = Chain-update m.cell p none xs own.0 inv.chain;
    owns = λ j q h. ground (arith, inv.owns j q, free j);
    apart = inv.apart;
    taker = tt;
  }

  -- The item at the top is the head of the contents.
  pub top-cons :
      {xs : List (ℕ × A)} (p : ℕ)
      → Inv m pushers popper xs
      → m.top ≡ p
      → member p xs ≡ true
      → (v : A) × (ys : List (ℕ × A)) × (xs ≡ (p, v) ∷ ys)
  top-cons {xs = []} p inv e h = ground arith
  top-cons {xs = (q, v) ∷ ys} p inv e h = (v, ys, ground (arith, inv.top))
