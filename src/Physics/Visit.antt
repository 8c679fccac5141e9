-- ===== src/Physics/Visit.antt =====
-- A player that joins and leaves, for every engine that keeps the contract of core/physicsiface.hpp.
use quintses.Common.{ℕ, ◌≡◌, ◌≢◌, refl, ◌∙◌, true, none, some, List, [], ◌∷◌, ◌++◌, arith, ==_ne}
use quintses.Common.Map.{lookup, lookup-insert, insert, erase, keys, index-some}
use quintses.Socket.{Result, ok, err}
use quintses.Messages.Server.{ServerMsg, Text}
use quintses.PhysicsIface.{add_physical, del_physical}
use quintses.Server.{LocalServer, broadcast, load_player, remove_client}
use quintses.Messages.Client.{add_drawable, del_drawable}
use quintses.Physics.Contract.{PhysicsIface}
use quintses.Physics.Stream.{physics_msgs}
use quintses.Physics.Stream.Calls.{physics_msgs-append, physics_msgs-broadcast}

-- What `loadPlayer` and `removeClient` push to the engine, one after the other.
abbrev pub visit : ℕ → Text → LocalServer → List ServerMsg
visit c t s =
    physics_msgs (load_player c t s).1 ++ physics_msgs (remove_client c (load_player c t s).0).1

visit-msgs :
    (c : ℕ) (t : Text) (s : LocalServer)
    → lookup c s.clients ≡ none
    → s.next_id ≢ 0
    → visit c t s ≡ add_physical s.next_id t s.player_spawn true ∷ del_physical s.next_id true ∷ []
unfolding load_player remove_client physics_msgs
visit-msgs c t s new ne =
    let joined : lookup c (load_player c t s).0.clients ≡ some s.next_id =
      ground (arith, lookup-insert c s.next_id c s.clients) in
    let found = index-some c s.next_id (load_player c t s).0.clients joined in
    let left = broadcast (keys (erase c (insert c s.next_id s.clients))) (del_drawable s.next_id) in
    let lobby = broadcast (keys (erase c (erase c s.lobby_clients))) (del_drawable s.next_id) in
    rw
      (
        found,
        ==_ne s.next_id 0 ne,
        physics_msgs-append left lobby,
        physics_msgs-broadcast (keys (insert c s.next_id s.clients)) (add_drawable s.next_id t),
        physics_msgs-broadcast (keys (erase c (insert c s.next_id s.clients)))
            (del_drawable s.next_id),
        physics_msgs-broadcast (keys (erase c (erase c s.lobby_clients))) (del_drawable s.next_id),
      )
      refl

module _ (phys : PhysicsIface) where
  open phys use {Engine, character, object, deliver, adds, deletes}

  abbrev next_delivery :
      (LocalServer → Engine → Result (LocalServer × Engine))
      → Result (LocalServer × Engine)
      → Result (LocalServer × Engine)
  next_delivery rest (ok (s, e)) = rest s e
  next_delivery rest (err fault) = err fault

  unfoldable pub deliver_all : List ServerMsg → LocalServer → Engine → Result (LocalServer × Engine)
  deliver_all [] s e = ok (s, e)
  deliver_all (msg ∷ msgs) s e = next_delivery (deliver_all msgs) (deliver msg s e)

  -- In every engine that keeps the contract and has no character under the next identifier of the
  -- server, that identifier not being 0: when a client that `m_clients` does not hold, not even with
  -- the identifier 0, loads a player and is then removed, and the messages are delivered in this
  -- order, none faults, and the engine has the characters, with their input states, and the objects
  -- that it had.
  pub visit_lem :
      (c : ℕ) (t : Text) (s s' : LocalServer) (e : Engine)
      → lookup c s.clients ≡ none
      → s.next_id ≢ 0
      → character s.next_id e ≡ none
      → (e' : Engine) × (deliver_all (visit c t s) s' e ≡ ok (s', e'))
        × ((i : ℕ) → character i e' ≡ character i e)
        × ((i : ℕ) → object i e' ≡ object i e)
  unfolding deliver_all
  visit_lem c t s s' e new ne free =
      let id = s.next_id in
      let (e1, added, present, same) = adds id t s.player_spawn s' e in
      let (e2, deleted, gone, same') = deletes id 0 s' e1 (present id ∙ ground arith) in
      (
        e2,
        rw (visit-msgs c t s new ne, added, deleted) refl,
        λ i. gone i ∙ ground (arith, present i, free),
        λ i. same' i ∙ same i,
      )
