-- ===== src/Queue/Lockless/Chain.antt =====
-- The items behind `head` as a list, newest first.
use quintses.Common.{
  ℕ, ◌≡◌, ◌≢◌, refl, Bool, true, false, ◌||◌, Option, none, some, List, [], ◌∷◌, arith, ◌==◌,
  is_some,
}
use quintses.Queue.Lockless.{QueueItem, Memory, update}

module _ {ℓ} {A : Type ℓ} where
  -- The address of the first item, or null.
  abbrev pub front : List (ℕ × A) → ℕ
  front [] = 0
  front ((p, v) ∷ xs) = p

  abbrev pub member : ℕ → List (ℕ × A) → Bool
  member p [] = false
  member p ((q, v) ∷ xs) = (q == p) || member p xs

  -- The items lie at distinct addresses, each with its value and linked to the one behind it.
  abbrev pub Chain : (ℕ → Option (QueueItem A)) → List (ℕ × A) → Type ℓ
  Chain cell [] = Unit
  Chain cell ((p, v) ∷ xs) =
      (p ≢ 0)
      × (cell p ≡ some (record { value = v; next = front xs }))
      × (member p xs ≡ false)
      × Chain cell xs

  -- What the queue holds.
  pub record Holds (m : Memory A) (xs : List (ℕ × A)) : Type ℓ where
    pub top : m.top ≡ front xs
    pub chain : Chain m.cell xs

  -- An address outside the chain may be written.
  pub Chain-update :
      (cell : ℕ → Option (QueueItem A)) (p : ℕ) (c : Option (QueueItem A)) (xs : List (ℕ × A))
      → member p xs ≡ false
      → Chain cell xs
      → Chain (update cell p c) xs
  Chain-update cell p c [] out h = tt
  Chain-update cell p c ((q, v) ∷ xs) out h =
      (h.0, ground arith, h.2, Chain-update cell p c xs (ground arith) h.3)

  pub member-ne_zero :
      (cell : ℕ → Option (QueueItem A)) (p : ℕ) (xs : List (ℕ × A))
      → Chain cell xs
      → member p xs ≡ true
      → (p ≢ 0) × (is_some (cell p) ≡ true)
  member-ne_zero cell p [] h e = ground arith
  member-ne_zero cell p ((q, v) ∷ xs) h e = ground (arith, member-ne_zero cell p xs h.3)

  pub not-member_of_none :
      (cell : ℕ → Option (QueueItem A)) (p : ℕ) (xs : List (ℕ × A))
      → Chain cell xs
      → cell p ≡ none
      → member p xs ≡ false
  not-member_of_none cell p [] h e = refl
  not-member_of_none cell p ((q, v) ∷ xs) h e = ground (arith, not-member_of_none cell p xs h.3)
