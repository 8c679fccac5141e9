-- ===== src/Common/Map.antt =====
-- `std::map` and `std::set` with keys in ℕ: association lists in key order. A pointer that serves
-- as a key is its address; a set is a map to `Unit`.
use Prim.Native.Nat.{ℕ, suc, ◌≤◌}
use mathlib.Core.Path.{◌≡◌, refl}
use mathlib.Core.Logic.{◌≢◌, ◌⊎◌}
use mathlib.Core.Bool.{Bool, false, ◌||◌}
use mathlib.Core.Option.{Option, none, some}
use mathlib.Core.List.{List, [], ◌∷◌}
use native.Mathlib.Omega.{arith}
use quintses.Common.Tests.{ltb, ◌==◌, if◌then◌else◌}
use quintses.Common.Lists.{is_some}

abbrev pub Map {ℓ} : Type ℓ → Type ℓ
Map V = List (ℕ × V)

module _ {ℓ} {V : Type ℓ} where
  -- `find`
  unfoldable pub lookup : ℕ → Map V → Option V
  lookup key [] = none
  lookup key ((other, v) ∷ entries) = if other == key then some v else lookup key entries

  -- `m[k] = v`
  unfoldable pub assign : ℕ → V → Map V → Map V
  assign k v [] = (k, v) ∷ []
  assign k v ((j, w) ∷ m) =
      let rest = (j, w) ∷ assign k v m in
      if j == k then (k, v) ∷ m else if ltb k j then (k, v) ∷ (j, w) ∷ m else rest

  -- `m.insert(std::make_pair(k, v))`, which leaves an entry that is there
  unfoldable pub insert : ℕ → V → Map V → Map V
  unfolding lookup assign
  insert k v m = elim (lookup k m) [ none ↦ assign k v m | some w ↦ m ]

  -- `m.erase(k)`
  unfoldable pub erase : ℕ → Map V → Map V
  erase k [] = []
  erase k ((j, v) ∷ m) = let rest = erase k m in if j == k then rest else (j, v) ∷ rest

  pub lookup-assign :
      (k : ℕ) (v : V) (i : ℕ) (m : Map V)
      → lookup i (assign k v m) ≡ (if k == i then some v else lookup i m)
  unfolding lookup assign
  lookup-assign k v i [] = refl
  lookup-assign k v i ((j, w) ∷ m) = ground (arith, lookup-assign k v i m)

  pub lookup_assigned : (k : ℕ) (v : V) (m : Map V) → lookup k (assign k v m) ≡ some v
  lookup_assigned k v m = ground (arith, lookup-assign k v k m)

  pub lookup-insert :
      (k : ℕ) (v : V) (i : ℕ) (m : Map V)
      → lookup i (insert k v m)
        ≡ elim (lookup k m) [ none ↦ if k == i then some v else lookup i m | some w ↦ lookup i m ]
  unfolding insert
  lookup-insert k v i m = ground (arith, lookup-assign k v i m)

  pub lookup-erase :
      (k i : ℕ) (m : Map V) → lookup i (erase k m) ≡ (if k == i then none else lookup i m)
  unfolding lookup erase
  lookup-erase k i [] = ground arith
  lookup-erase k i ((j, w) ∷ m) = ground (arith, lookup-erase k i m)

  -- The keys rise, from `b` on, as in every `std::map`.
  abbrev pub Rising : ℕ → Map V → Type 0
  Rising b [] = Unit
  Rising b ((k, v) ∷ m) = (b ≤ k) × Rising (suc k) m

  pub Rising-mono : {a b : ℕ} (m : Map V) → a ≤ b → Rising b m → Rising a m
  Rising-mono [] h r = tt
  Rising-mono ((k, v) ∷ m) h r = (omega arith, r.1)

  pub assign-Rising : (b k : ℕ) (v : V) (m : Map V) → b ≤ k → Rising b m → Rising b (assign k v m)
  unfolding assign
  assign-Rising b k v [] h r = (h, tt)
  assign-Rising b k v ((j, w) ∷ m) h r = ground (arith, assign-Rising (suc j) k v m)

  pub erase-Rising : (b k : ℕ) (m : Map V) → Rising b m → Rising b (erase k m)
  unfolding erase
  erase-Rising b k [] r = tt
  erase-Rising b k ((j, w) ∷ m) r =
      ground (arith, erase-Rising (suc j) k m, Rising-mono {a = b} {b = suc j} (erase k m))

  pub insert-Rising : (k : ℕ) (v : V) (m : Map V) → Rising 0 m → Rising 0 (insert k v m)
  unfolding insert
  insert-Rising k v m r = ground (arith, assign-Rising 0 k v m)

  -- Keys, in iteration order.
  unfoldable pub keys : Map V → List ℕ
  keys [] = []
  keys ((k, v) ∷ m) = k ∷ keys m

  abbrev pub has : ℕ → Map V → Bool
  has k m = is_some (lookup k m)

-- `m[k]` read as a value: a missing key is inserted with 0.
unfoldable pub index : ℕ → Map ℕ → ℕ × Map ℕ
unfolding lookup assign
index k m = elim (lookup k m) [ none ↦ (0, assign k 0 m) | some v ↦ (v, m) ]

pub lookup-index :
    (k i : ℕ) (m : Map ℕ)
    → lookup i (index k m).1 ≡ (if k == i then some (index k m).0 else lookup i m)
unfolding index
lookup-index k i m = ground (arith, lookup-assign k 0 i m)

pub index-none : (k : ℕ) (m : Map ℕ) → lookup k m ≡ none → (index k m).0 ≡ 0
unfolding index
index-none k m h = ground arith

pub index-some : (k v : ℕ) (m : Map ℕ) → lookup k m ≡ some v → index k m ≡ (v, m)
unfolding index
index-some k v m h = ground arith

pub index-Rising : (k : ℕ) (m : Map ℕ) → Rising 0 m → Rising 0 (index k m).1
unfolding index
index-Rising k m r = ground (arith, assign-Rising 0 k 0 m)

-- What a lookup in an updated map finds.
pub insert_found {ℓ} :
    {V : Type ℓ} (k : ℕ) (v : V) (m : Map V) (i : ℕ) (w : V)
    → lookup i (insert k v m) ≡ some w
    → (lookup i m ≡ some w) ⊎ ((i ≡ k) × (w ≡ v) × (lookup k m ≡ none))
insert_found k v m i w h = ground (arith, lookup-insert k v i m)

pub erase_found {ℓ} :
    {V : Type ℓ} (k : ℕ) (m : Map V) (i : ℕ) (w : V)
    → lookup i (erase k m) ≡ some w
    → (lookup i m ≡ some w) × (i ≢ k)
erase_found k m i w h = ground (arith, lookup-erase k i m)

pub index_found :
    (k : ℕ) (m : Map ℕ) (i w : ℕ)
    → lookup i (index k m).1 ≡ some w
    → (lookup i m ≡ some w) ⊎ ((i ≡ k) × (w ≡ 0))
unfolding index
index_found k m i w h = ground (arith, lookup-assign k 0 i m)

pub has-insert {ℓ} :
    {V : Type ℓ} (k : ℕ) (v : V) (m : Map V) (i : ℕ) → has i (insert k v m) ≡ (k == i || has i m)
has-insert k v m i = ground (arith, lookup-insert k v i m)

pub has-erase {ℓ} :
    {V : Type ℓ} (k : ℕ) (m : Map V) (i : ℕ)
    → has i (erase k m) ≡ (if k == i then false else has i m)
has-erase k m i = ground (arith, lookup-erase k i m)
