-- ===== src/Xml/Handles.antt =====
-- core/util/xml.hpp: the class `XmlDom`, a handle that shares a document and the count of its
-- handles. The model keeps the counts that are allocated, by address, and the handles of the
-- program; a document lives and dies with its count. The functions of core/util/atomic.hpp on the
-- counts are one step each, and the calls of one thread follow each other.
pub mod Counts
pub mod Calls
use quintses.Common.{
  ℕ, zero, suc, ◌+◌, ◌-◌, ◌%◌, ◌^◌, Bool, true, false, Option, none, some, List, [], ◌∷◌, ◌++◌,
  ◌==◌, if◌then◌else◌,
}
use quintses.Common.Map.{Map, lookup, assign, erase}

-- An object of type `XmlDom` that has been destroyed, or whose pointers are null, or point to a count.
pub data Handle : Type 0 where
  dead null : Handle
  to : ℕ → Handle

pub record Doms : Type 0 where
  pub counts : Map ℕ
  -- where the next count is allocated
  pub next : ℕ
  pub handles : List Handle
  -- the counts that were allocated by constructors that threw
  pub lost : List ℕ

abbrev pub at : ℕ → List Handle → Handle
at n [] = dead
at zero (h ∷ hs) = h
at (suc n) (h ∷ hs) = at n hs

abbrev pub put : ℕ → Handle → List Handle → List Handle
put n v [] = []
put zero v (h ∷ hs) = v ∷ hs
put (suc n) v (h ∷ hs) = h ∷ put n v hs

-- `fetchAndIncrementP` and `fetchAndDecrementP`, where none is an access to what has been freed;
-- behind the second the destructor and the assignment test the count and free it.
unfoldable pub increment : ℕ → Map ℕ → Option (Map ℕ)
increment a counts = elim (lookup a counts) [
  | none ↦ none
  | some n ↦ some (assign a ((n + 1) % 2 ^ 32) counts)
]

unfoldable pub decrement : ℕ → Map ℕ → Option (Map ℕ)
decrement a counts = elim (lookup a counts) [
  | none ↦ none
  | some n ↦
      let left = (n + (2 ^ 32 - 1)) % 2 ^ 32 in
      some (if left == 0 then erase a counts else assign a left counts)
]

-- Both under their tests for null.
unfoldable pub retain : Handle → Map ℕ → Option (Map ℕ)
unfolding increment
retain (to a) counts = increment a counts
retain h counts = some counts

unfoldable pub release : Handle → Map ℕ → Option (Map ℕ)
unfolding decrement
release (to a) counts = decrement a counts
release h counts = some counts

abbrev pub with_counts : Option (Map ℕ) → (Map ℕ → Doms) → Option Doms
with_counts none f = none
with_counts (some counts) f = some (f counts)

abbrev pub and_retain : Option (Map ℕ) → Handle → Option (Map ℕ)
and_retain none h = none
and_retain (some counts) h = retain h counts

-- What a program does with handles: the two constructors, the copy of a handle, the assignment of the
-- second to the first, and the end of one. The constructor on a text is given whether `parse` of the
-- text returns; where it throws there is no object, and the count and the document stay allocated.
pub data Call : Type 0 where
  default_dom : Call
  text_dom : Bool → Call
  copies : ℕ → Call
  assigns : ℕ → ℕ → Call
  destroys : ℕ → Call

unfoldable pub call : Call → Doms → Option Doms
unfolding retain release
call default_dom s = some (record s { handles = s.handles ++ null ∷ [] })
call (text_dom true) s = some (record s {
  counts = assign s.next 1 s.counts;
  next = s.next + 1;
  handles = s.handles ++ to s.next ∷ [];
})
call (text_dom false) s =
    some (record s { counts = assign s.next 1 s.counts; next = s.next + 1; lost = s.next ∷ s.lost })
call (copies j) s =
    with_counts (retain (at j s.handles) s.counts)
      (λ counts. record s { counts = counts; handles = s.handles ++ at j s.handles ∷ [] })
call (assigns i j) s =
    with_counts (and_retain (release (at i s.handles) s.counts) (at j s.handles))
      (λ counts. record s { counts = counts; handles = put i (at j s.handles) s.handles })
call (destroys i) s =
    with_counts (release (at i s.handles) s.counts)
      (λ counts. record s { counts = counts; handles = put i dead s.handles })
