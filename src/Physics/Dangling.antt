-- ===== src/Physics/Dangling.antt =====
-- Messages of a client that are handled after `removeClient` of it, behind which a `RemoteClient`
-- deletes itself.
use quintses.Common.{ℕ, ◌≡◌, ap, ◌∙◌, false, some, List, [], ◌∷◌, arith}
use quintses.Common.Map.{
  has, lookup, index, Rising, erase-Rising, index-Rising, has-erase, lookup-index, index-none,
}
use quintses.Socket.{ok}
use quintses.Messages.Server.{Matrix, Text, input}
use quintses.Messages.Client.{add_drawable}
use quintses.Server.{
  LocalServer, remove_client, get_client_id, load_player, finish, push_client_transforms,
}
use quintses.Server.Delivery.{
  sent_to, trans_msgs, load_player-delivery, push_client_transforms-delivery,
}
use quintses.Server.Closing.{closings, finish-closings}
use quintses.Server.Registered.{is_registered}
use quintses.Physics.{BtPhysics, parse_message, set_input_state_callback}

-- What `removeClient` leaves, and what a lookup of the client makes of it.
abbrev pub removed : ℕ → LocalServer → LocalServer
removed c s = (remove_client c s).0

abbrev pub back : ℕ → LocalServer → LocalServer
back c s = (get_client_id c (removed c s)).1

module _ (c : ℕ) (s : LocalServer) where
  removed-is_registered : is_registered c (removed c s) ≡ false
  unfolding remove_client
  removed-is_registered =
      ground (arith, has-erase c (index c s.clients).1 c, has-erase c s.lobby_clients c)

  removed-Rising :
      Rising 0 s.clients
      → Rising 0 s.lobby_clients
      → Rising 0 (removed c s).clients × Rising 0 (removed c s).lobby_clients
  unfolding remove_client
  removed-Rising r r' = (
    erase-Rising 0 c (index c s.clients).1 (index-Rising c s.clients r),
    erase-Rising 0 c s.lobby_clients r',
  )

  back-Rising :
      Rising 0 s.clients
      → Rising 0 s.lobby_clients
      → Rising 0 (back c s).clients × Rising 0 (back c s).lobby_clients
  unfolding get_client_id
  back-Rising r r' =
      let (q, q') = removed-Rising r r' in (index-Rising c (removed c s).clients q, q')

  back-zero : (get_client_id c (removed c s)).0 ≡ 0
  unfolding get_client_id
  back-zero = ground (arith, index-none c (removed c s).clients, removed-is_registered)

  back-lists : (lookup c (back c s).clients ≡ some 0) × (has c (back c s).lobby_clients ≡ false)
  unfolding get_client_id
  back-lists =
      let gone = removed-is_registered in
      (
        ground (
          arith,
          lookup-index c c (removed c s).clients,
          index-none c (removed c s).clients,
          gone,
        ),
        ground (arith, gone),
      )

-- On a server whose clients and lobby stand in key order: a client that has been removed stands in
-- neither list. If the engine then takes an input message of that client from its queue, its lookup
-- puts the client back among the players, with the identifier 0, and from then on the client is
-- sent every transform once, and is told once that the server has closed. If the server instead
-- handles a message of that client that loads its player, it sends the client the drawable.
pub messages_after_removal :
    (c st : ℕ) (t : Text) (trans : List (ℕ × Matrix)) (s : LocalServer) (p : BtPhysics)
    → Rising 0 s.clients
    → Rising 0 s.lobby_clients
    → (is_registered c (removed c s) ≡ false)
      × (parse_message (input c st) (removed c s) p
          ≡ ok (back c s, set_input_state_callback 0 st p))
      × (lookup c (back c s).clients ≡ some 0)
      × (sent_to c (push_client_transforms trans (back c s)) ≡ trans_msgs trans)
      × (closings c (finish (back c s)).1 ≡ 1)
      × (sent_to c (load_player c t (removed c s)).1 ≡ add_drawable (removed c s).next_id t ∷ [])
unfolding parse_message
messages_after_removal c st t trans s p r r' =
    let (q, q') = back-Rising c s r r' in
    let (player, lobby) = back-lists c s in
    let (_, _, told) = finish-closings c (back c s) q q' in
    (
      removed-is_registered c s,
      ap (λ i. ok (back c s, set_input_state_callback i st p)) (back-zero c s),
      player,
      push_client_transforms-delivery c trans (back c s) q q' (ground (arith, lobby))
          ∙ ground (arith, player),
      ground (arith, told, player, lobby),
      load_player-delivery c c t (removed c s) (removed-Rising c s r r').0 ∙ ground arith,
    )
