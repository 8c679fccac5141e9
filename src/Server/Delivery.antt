-- ===== src/Server/Delivery.antt =====
-- Which client is sent what, by each call of the server.
use quintses.Common.{
  ℕ, suc, ◌<◌, ◌≡◌, ◌≢◌, refl, ap, ◌∙◌, Bool, false, ◌||◌, ◌&&◌, ==_ne, some, none, List, [], ◌∷◌,
  ◌++◌, arith, ◌==◌, if◌then◌else◌,
}
use quintses.Common.Map.{
  Map, lookup, Rising, insert-Rising, erase-Rising, insert, erase, has, keys, index-some,
  has-insert, has-erase,
}
use quintses.Messages.Server.{Matrix, Text, del_char}
use quintses.PhysicsIface.{del_physical}
use quintses.Messages.Client.{ClientMsg, add_drawable, trans_drawable, del_drawable}
use quintses.Server.{
  LocalServer, BaddieData, Effect, to_client, to_physics, set_input, closes, finish_physics,
  add_client, remove_client, load_player, push_client_transforms, broadcast, player_drawables,
  baddie_drawables, player,
}

-- The messages that client `c` receives, in order.
unfoldable pub sent_to : ℕ → List Effect → List ClientMsg
sent_to c [] = []
sent_to c (to_client k msg ∷ es) = let rest = sent_to c es in if k == c then msg ∷ rest else rest
sent_to c (e ∷ es) = sent_to c es

pub sent_to-append :
    (c : ℕ) (xs ys : List Effect) → sent_to c (xs ++ ys) ≡ sent_to c xs ++ sent_to c ys
unfolding sent_to
sent_to-append c [] ys = refl
sent_to-append c (to_client k msg ∷ es) ys = ground (arith, sent_to-append c es ys)
sent_to-append c (to_physics m ∷ es) ys = sent_to-append c es ys
sent_to-append c (set_input i st ∷ es) ys = sent_to-append c es ys
sent_to-append c (closes k ∷ es) ys = sent_to-append c es ys
sent_to-append c (finish_physics ∷ es) ys = sent_to-append c es ys

abbrev pub when : Bool → ClientMsg → List ClientMsg
when b msg = if b then msg ∷ [] else []

-- A key below all keys of a map is not in it.
lookup_below {ℓ} : {V : Type ℓ} (c b : ℕ) (m : Map V) → c < b → Rising b m → lookup c m ≡ none
unfolding lookup
lookup_below c b [] h r = refl
lookup_below c b ((k, v) ∷ m) h r = ground (arith, lookup_below c (suc k) m)

broadcast_below {ℓ} :
    {V : Type ℓ} (c b : ℕ) (m : Map V) (msg : ClientMsg)
    → c < b
    → Rising b m
    → sent_to c (broadcast (keys m) msg) ≡ []
unfolding sent_to broadcast keys
broadcast_below c b [] msg h r = refl
broadcast_below c b ((k, v) ∷ m) msg h r = ground (arith, broadcast_below c (suc k) m msg)

-- A broadcast over a map reaches each client in it once.
pub sent_to-broadcast {ℓ} :
    {V : Type ℓ} (c b : ℕ) (m : Map V) (msg : ClientMsg)
    → Rising b m
    → sent_to c (broadcast (keys m) msg) ≡ when (has c m) msg
unfolding sent_to broadcast keys lookup
sent_to-broadcast c b [] msg r = refl
sent_to-broadcast c b ((k, v) ∷ m) msg r =
    ground (arith, sent_to-broadcast c (suc k) m msg, broadcast_below c (suc k) m msg)

-- The transforms as the messages of `pushClientTransforms`.
unfoldable pub trans_msgs : List (ℕ × Matrix) → List ClientMsg
trans_msgs [] = []
trans_msgs ((id, mat) ∷ trans) = trans_drawable id mat ∷ trans_msgs trans

unfoldable pub player_msgs : Map ℕ → List ClientMsg
player_msgs [] = []
player_msgs ((k, id) ∷ m) = add_drawable id player ∷ player_msgs m

unfoldable pub baddie_msgs : List BaddieData → List ClientMsg
baddie_msgs [] = []
baddie_msgs (b ∷ bs) = add_drawable b.id b.templ ∷ baddie_msgs bs

sent_to-player_drawables :
    (c d : ℕ) (m : Map ℕ)
    → sent_to d (player_drawables c m) ≡ (if c == d then player_msgs m else [])
unfolding sent_to player_drawables player_msgs
sent_to-player_drawables c d [] = ground arith
sent_to-player_drawables c d ((k, id) ∷ m) = ground (arith, sent_to-player_drawables c d m)

sent_to-baddie_drawables :
    (c d : ℕ) (bs : List BaddieData)
    → sent_to d (baddie_drawables c bs) ≡ (if c == d then baddie_msgs bs else [])
unfolding sent_to baddie_drawables baddie_msgs
sent_to-baddie_drawables c d [] = ground arith
sent_to-baddie_drawables c d (b ∷ bs) = ground (arith, sent_to-baddie_drawables c d bs)

-- `addClient` sends the new client one drawable for each player and then for each baddie, and sends
-- the other clients nothing.
pub add_client-delivery :
    (c d : ℕ) (s : LocalServer)
    → sent_to d (add_client c s).1
      ≡ (if c == d then player_msgs s.clients ++ baddie_msgs s.baddies else [])
unfolding add_client
add_client-delivery c d s =
    sent_to-append d (player_drawables c s.clients) (baddie_drawables c s.baddies)
    ∙ ground (arith, sent_to-player_drawables c d s.clients, sent_to-baddie_drawables c d s.baddies)

-- On a server whose clients stand in key order, `loadPlayer` sends the drawable of the new player
-- to that client and to every client that has a player, once, and to no client of the lobby.
pub load_player-delivery :
    (c d : ℕ) (t : Text) (s : LocalServer)
    → Rising 0 s.clients
    → sent_to d (load_player c t s).1 ≡ when (c == d || has d s.clients) (add_drawable s.next_id t)
unfolding load_player sent_to
load_player-delivery c d t s r =
    sent_to-broadcast d 0 (insert c s.next_id s.clients) (add_drawable s.next_id t)
      (insert-Rising c s.next_id s.clients r)
    ∙ ap (λ b. when b (add_drawable s.next_id t)) (has-insert c s.next_id s.clients d)

-- On a server whose clients and lobby stand in key order, `removeClient` of a client with a player
-- first deletes the player's character, tells every other client once for each of the two lists that
-- it stands in, tells the removed client nothing, and leaves that client in neither list.
pub remove_client-delivery :
    (c d id : ℕ) (s : LocalServer)
    → Rising 0 s.clients
    → Rising 0 s.lobby_clients
    → lookup c s.clients ≡ some id
    → id ≢ 0
    → ((rest : List Effect) × ((remove_client c s).1 ≡ to_physics (del_char id) ∷ rest))
      × (sent_to d (remove_client c s).1 ≡ (
          if c == d
          then []
          else when (has d s.clients) (del_drawable id)
            ++ when (has d s.lobby_clients) (del_drawable id)))
      × (has c (remove_client c s).0.clients ≡ false)
      × (has c (remove_client c s).0.lobby_clients ≡ false)
unfolding remove_client sent_to del_physical
remove_client-delivery c d id s r r' e ne =
    rw (index-some c id s.clients e, ==_ne id 0 ne)
      (
        (_, refl),
        sent_to-append d (broadcast (keys (erase c s.clients)) (del_drawable id)) _
            ∙ ground (
              arith,
              sent_to-broadcast d 0 (erase c s.clients) (del_drawable id)
                  (erase-Rising 0 c s.clients r),
              sent_to-broadcast d 0 (erase c s.lobby_clients) (del_drawable id)
                  (erase-Rising 0 c s.lobby_clients r'),
              has-erase c s.clients d,
              has-erase c s.lobby_clients d,
            ),
        ground (arith, has-erase c s.clients c),
        ground (arith, has-erase c s.lobby_clients c),
      )

-- On a server whose clients and lobby stand in key order, `pushClientTransforms` sends every transform
-- once, in order, to a client that stands in exactly one of the two lists, and nothing to a client
-- that stands in neither.
pub push_client_transforms-delivery :
    (d : ℕ) (trans : List (ℕ × Matrix)) (s : LocalServer)
    → Rising 0 s.clients
    → Rising 0 s.lobby_clients
    → (has d s.clients && has d s.lobby_clients) ≡ false
    → sent_to d (push_client_transforms trans s)
      ≡ (if has d s.clients || has d s.lobby_clients then trans_msgs trans else [])
unfolding push_client_transforms trans_msgs sent_to
push_client_transforms-delivery d [] s r r' h = ground arith
push_client_transforms-delivery d ((id, mat) ∷ trans) s r r' h =
    sent_to-append d (broadcast (keys s.clients) (trans_drawable id mat)) _
    ∙ ground (
      arith,
      sent_to-append d (broadcast (keys s.lobby_clients) (trans_drawable id mat))
          (push_client_transforms trans s),
      sent_to-broadcast d 0 s.clients (trans_drawable id mat) r,
      sent_to-broadcast d 0 s.lobby_clients (trans_drawable id mat) r',
      push_client_transforms-delivery d trans s r r' h,
    )
