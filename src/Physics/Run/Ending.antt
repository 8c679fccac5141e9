-- ===== src/Physics/Run/Ending.antt =====
-- The end of `run`: the loops that take every object from the bullet world before it is deleted.
use quintses.Common.{ℕ, ◌-◌, ◌≤◌, ◌≡◌, ◌∙◌, List, [], ◌∷◌, arith}
use quintses.Common.Map.{Map, lookup, has, keys}
use quintses.Physics.{BtPhysics, remove}
use quintses.Physics.Registered.{count, count-remove, once, IsRegistered}
use quintses.Physics.Run.{remove_all, close_world}

count-remove_all :
    (k : ℕ) (ids is : List ℕ) → count k (remove_all ids is) ≡ count k is - count k ids
unfolding count remove_all
count-remove_all k [] is = omega arith
count-remove_all k (id ∷ ids) is =
    count-remove_all k ids (remove id is) ∙ ground (arith, count-remove id k is)

count-keys {ℓ} : {V : Type ℓ} (k : ℕ) (m : Map V) → once (has k m) ≤ count k (keys m)
unfolding count keys lookup
count-keys k [] = omega arith
count-keys k ((j, v) ∷ m) = ground (arith, count-keys k m)

-- If every object of the engine is registered once and nothing else is, then behind the end of `run`
-- nothing is registered with the bullet world: no body, no ghost and no action.
pub close_world-IsEmpty :
    (p : BtPhysics) (i : ℕ)
    → IsRegistered p
    → (count i (close_world p).bodies ≡ 0)
      × (count i (close_world p).ghosts ≡ 0)
      × (count i (close_world p).actions ≡ 0)
unfolding close_world
close_world-IsEmpty p i r = (
  count-remove_all i (keys p.objects) p.world.bodies
      ∙ omega (arith, r.bodies i, count-keys i p.objects),
  count-remove_all i (keys p.characters) p.world.ghosts
      ∙ omega (arith, r.ghosts i, count-keys i p.characters),
  count-remove_all i (keys p.characters) p.world.actions
      ∙ omega (arith, r.actions i, count-keys i p.characters),
)
