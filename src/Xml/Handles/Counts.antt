-- ===== src/Xml/Handles/Counts.antt =====
-- Each count is the number of the handles that share it, and is freed with the last of them.
use quintses.Common.{
  ℕ, zero, suc, ◌+◌, ◌-◌, ◌%◌, ◌^◌, ◌≤◌, ◌<◌, ◌≡◌, ◌≢◌, refl, ap, ◌∙◌, Option, none, some, List, [],
  ◌∷◌, ◌++◌, arith, ◌==◌, if◌then◌else◌, length,
}
use quintses.Common.Map.{Map, lookup, assign, erase, lookup-assign, lookup-erase}
use quintses.Xml.Handles.{
  Handle, Doms, dead, null, to, at, put, increment, decrement, retain, release,
}

abbrev pub hit : ℕ → Handle → ℕ
hit a (to b) = if b == a then 1 else 0
hit a h = 0

-- How many handles share a count.
unfoldable pub shares : ℕ → List Handle → ℕ
shares a [] = 0
shares a (h ∷ hs) = hit a h + shares a hs

abbrev pub counted : ℕ → Option ℕ
counted zero = none
counted (suc n) = some (suc n)

pub shares-append :
    (a : ℕ) (hs : List Handle) (v : Handle) → shares a (hs ++ v ∷ []) ≡ shares a hs + hit a v
unfolding shares
shares-append a [] v = omega arith
shares-append a (h ∷ hs) v = omega (arith, shares-append a hs v)

pub shares-le : (a : ℕ) (hs : List Handle) → shares a hs ≤ length hs
unfolding shares
shares-le a [] = omega arith
shares-le a (dead ∷ hs) = omega (arith, shares-le a hs)
shares-le a (null ∷ hs) = omega (arith, shares-le a hs)
shares-le a (to b ∷ hs) = ground (arith, shares-le a hs)

-- One handle less.
pub shares-put_dead :
    (a i : ℕ) (hs : List Handle) → shares a (put i dead hs) + hit a (at i hs) ≡ shares a hs
unfolding shares
shares-put_dead a i [] = refl
shares-put_dead a zero (h ∷ hs) = omega arith
shares-put_dead a (suc i) (h ∷ hs) = omega (arith, shares-put_dead a i hs)

pub shares-put :
    (a i : ℕ) (v : Handle) (hs : List Handle)
    → i < length hs
    → shares a (put i v hs) ≡ shares a (put i dead hs) + hit a v
unfolding shares
shares-put a i v [] h = absurd (omega arith)
shares-put a zero v (x ∷ hs) h = omega arith
shares-put a (suc i) v (x ∷ hs) h = omega (arith, shares-put a i v hs (omega arith))

pub at-put : (i j : ℕ) (v : Handle) (hs : List Handle) → i ≢ j → at j (put i v hs) ≡ at j hs
at-put i j v [] h = refl
at-put zero zero v (x ∷ hs) h = absurd (h refl)
at-put zero (suc j) v (x ∷ hs) h = refl
at-put (suc i) zero v (x ∷ hs) h = refl
at-put (suc i) (suc j) v (x ∷ hs) h = at-put i j v hs (λ e. h (ap suc e))

pub hit-same : (a : ℕ) → hit a (to a) ≡ 1
hit-same a = ground arith

pub shares-at : (a j : ℕ) (hs : List Handle) → at j hs ≡ to a → 1 ≤ shares a hs
shares-at a j hs e = omega (arith, shares-put_dead a j hs, ap (hit a) e, hit-same a)

-- How many counts a constructor that threw has left at an address.
unfoldable pub losses : ℕ → List ℕ → ℕ
losses a [] = 0
losses a (b ∷ bs) = (if b == a then 1 else 0) + losses a bs

-- Each count is the number of the handles that share it, but those that are lost, which are 1.
abbrev pub Counted : List ℕ → List Handle → Map ℕ → Type 0
Counted lost hs counts = (a : ℕ) → lookup a counts ≡ counted (shares a hs + losses a lost)

-- No handle shares a lost count.
abbrev pub IsApart : List ℕ → List Handle → Type 0
IsApart lost hs = (a : ℕ) → 1 ≤ shares a hs → losses a lost ≡ 0

module _ (shared : ℕ → ℕ) (counts : Map ℕ)
    (c : (a : ℕ) → lookup a counts ≡ counted (shared a)) where
  decrement-Counted :
      (b : ℕ)
      → 1 ≤ shared b
      → shared b < 2 ^ 32
      → (after : Map ℕ) × (decrement b counts ≡ some after)
        × ((a : ℕ) → lookup a after ≡ counted (shared a - hit a (to b)))
  unfolding decrement
  decrement-Counted b one small =
      let n : ℕ = shared b - 1 in
      let pred : shared b ≡ suc n = omega arith in
      let is : lookup b counts ≡ some (suc n) = c b ∙ ap counted pred in
      let left : (suc n + (2 ^ 32 - 1)) % 2 ^ 32 ≡ n = omega arith in
      (
        (if n == 0 then erase b counts else assign b n counts),
        rw (is, left, decrement) refl,
        λ a. ground (arith, lookup-erase b a counts, lookup-assign b n a counts, c a, c b),
      )

  increment-Counted :
      (b : ℕ)
      → 1 ≤ shared b
      → shared b + 1 < 2 ^ 32
      → (after : Map ℕ) × (increment b counts ≡ some after)
        × ((a : ℕ) → lookup a after ≡ counted (shared a + hit a (to b)))
  unfolding increment
  increment-Counted b one small =
      let n : ℕ = shared b - 1 in
      let pred : shared b ≡ suc n = omega arith in
      let is : lookup b counts ≡ some (suc n) = c b ∙ ap counted pred in
      let more : (suc n + 1) % 2 ^ 32 ≡ suc (suc n) = omega arith in
      (
        assign b (suc (suc n)) counts,
        rw (is, more, increment) refl,
        λ a. ground (arith, lookup-assign b (suc (suc n)) a counts, c a, c b),
      )

hit-le-shares : (i : ℕ) (hs : List Handle) (a b : ℕ) → at i hs ≡ to b → hit a (to b) ≤ shares a hs
hit-le-shares i hs a b e = omega (arith, shares-put_dead a i hs, ap (hit a) e)

-- A handle that is released leaves a count for those that still share it.
pub release-Counted :
    (i : ℕ) (lost : List ℕ) (hs : List Handle) (counts : Map ℕ)
    → length hs < 2 ^ 32
    → IsApart lost hs
    → Counted lost hs counts
    → (after : Map ℕ) × (release (at i hs) counts ≡ some after) × Counted lost (put i dead hs) after
unfolding release
release-Counted i lost hs counts small apart c = go (at i hs) refl
  where
    less : (h : Handle) → at i hs ≡ h → (a : ℕ) → shares a (put i dead hs) ≡ shares a hs - hit a h
    less h e a = omega (arith, shares-put_dead a i hs, ap (hit a) e)

    go :
        (h : Handle)
        → at i hs ≡ h
        → (after : Map ℕ) × (release h counts ≡ some after) × Counted lost (put i dead hs) after
    go dead e = (counts, refl, λ a. c a ∙ ap counted (omega (arith, less dead e a)))
    go null e = (counts, refl, λ a. c a ∙ ap counted (omega (arith, less null e a)))
    go (to b) e =
        let one = shares-at b i hs e in
        let (after, ends, others) =
          decrement-Counted (λ a. shares a hs + losses a lost) counts c b (omega (arith, one))
            (omega (arith, shares-le b hs, apart b one)) in
        (
          after,
          ends,
          λ a. others a ∙ ap counted (omega (arith, less (to b) e a, hit-le-shares i hs a b e)),
        )

-- A handle that is retained must share a count that is allocated.
pub retain-Counted :
    (h : Handle) (lost : List ℕ) (hs : List Handle) (counts : Map ℕ)
    → length hs + 1 < 2 ^ 32
    → IsApart lost hs
    → Counted lost hs counts
    → ((b : ℕ) → h ≡ to b → 1 ≤ shares b hs)
    → (after : Map ℕ) × (retain h counts ≡ some after)
      × ((a : ℕ) → lookup a after ≡ counted (shares a hs + hit a h + losses a lost))
unfolding retain
retain-Counted dead lost hs counts small apart c known =
    (counts, refl, λ a. c a ∙ ap counted (omega arith))
retain-Counted null lost hs counts small apart c known =
    (counts, refl, λ a. c a ∙ ap counted (omega arith))
retain-Counted (to b) lost hs counts small apart c known =
    let one = known b refl in
    let (after, ends, others) =
      increment-Counted (λ a. shares a hs + losses a lost) counts c b (omega (arith, one))
        (omega (arith, shares-le b hs, apart b one)) in
    (after, ends, λ a. others a ∙ ap counted (omega arith))

-- What holds of the counts, the handles and what is lost; an address in use is below the next.
pub record Inv (s : Doms) : Type 0 where
  pub counted_by : Counted s.lost s.handles s.counts
  pub apart : IsApart s.lost s.handles
  pub fresh : (a : ℕ) → 1 ≤ shares a s.handles + losses a s.lost → a < s.next
