-- ===== src/Server/Closing.antt =====
-- What `run` does to the clients behind its loop.
use quintses.Common.{
  ℕ, suc, ◌+◌, ◌<◌, ◌≤◌, true, ◌≡◌, refl, ◌∙◌, false, List, [], ◌∷◌, ◌++◌, arith, ◌==◌,
  if◌then◌else◌,
}
use quintses.Common.Map.{Map, has, lookup, keys, Rising}
use quintses.Server.{
  LocalServer, Effect, to_client, to_physics, set_input, closes, finish_physics, finish, close_all,
}

-- How often `serverClosed` of client `c` is called.
unfoldable pub closings : ℕ → List Effect → ℕ
closings c [] = 0
closings c (closes k ∷ es) = (if k == c then 1 else 0) + closings c es
closings c (e ∷ es) = closings c es

pub closings-append :
    (c : ℕ) (xs ys : List Effect) → closings c (xs ++ ys) ≡ closings c xs + closings c ys
unfolding closings
closings-append c [] ys = omega arith
closings-append c (closes k ∷ es) ys = ground (arith, closings-append c es ys)
closings-append c (to_client k m ∷ es) ys = closings-append c es ys
closings-append c (to_physics m ∷ es) ys = closings-append c es ys
closings-append c (set_input i st ∷ es) ys = closings-append c es ys
closings-append c (finish_physics ∷ es) ys = closings-append c es ys

closings_below {ℓ} :
    {V : Type ℓ} (c b : ℕ) (m : Map V) → c < b → Rising b m → closings c (close_all (keys m)) ≡ 0
unfolding closings close_all keys
closings_below c b [] h r = refl
closings_below c b ((k, v) ∷ m) h r = ground (arith, closings_below c (suc k) m)

closings-close_all {ℓ} :
    {V : Type ℓ} (c b : ℕ) (m : Map V)
    → Rising b m
    → closings c (close_all (keys m)) ≡ (if has c m then 1 else 0)
unfolding closings close_all keys lookup
closings-close_all c b [] r = refl
closings-close_all c b ((k, v) ∷ m) r =
    ground (arith, closings-close_all c (suc k) m, closings_below c (suc k) m)

-- When the loop of `run` has ended, the physics engine is finished before any client is told, the
-- server no longer runs, and `serverClosed` is called once for each list that a client stands in.
pub finish-closings :
    (c : ℕ) (s : LocalServer)
    → Rising 0 s.clients
    → Rising 0 s.lobby_clients
    → ((rest : List Effect) × ((finish s).1 ≡ finish_physics ∷ rest))
      × ((finish s).0.running ≡ false)
      × (closings c (finish s).1
          ≡ (if has c s.clients then 1 else 0) + (if has c s.lobby_clients then 1 else 0))
unfolding finish closings
finish-closings c s r r' = (
  (_, refl),
  refl,
  closings-append c (close_all (keys s.clients)) (close_all (keys s.lobby_clients))
      ∙ ground
          (arith, closings-close_all c 0 s.clients r, closings-close_all c 0 s.lobby_clients r'),
)

-- A client that stands in a list is told.
pub has-close_all {ℓ} :
    {V : Type ℓ} (c : ℕ) (m : Map V) → has c m ≡ true → 1 ≤ closings c (close_all (keys m))
unfolding closings close_all keys lookup
has-close_all c [] h = absurd (ground arith)
has-close_all c ((k, v) ∷ m) h = ground (arith, has-close_all c m)
