-- ===== src/Server/Unregistered.antt =====
-- Input from a client that has no player yet: `getClientId` looks it up by `m_clients[cli]`, which
-- makes it a player with the identifier 0.
use quintses.Common.{ℕ, ◌≡◌, refl, some, none, List, [], ◌∷◌, arith}
use quintses.Common.Map.{lookup, lookup-insert, lookup-index, index-none, index-some}
use quintses.Messages.Server.{Text, add_char}
use quintses.PhysicsIface.{add_physical}
use quintses.Server.{LocalServer, Effect, to_physics, remove_client, load_player, get_client_id}

-- The server after the input of client `c` has been looked up and its player then loaded.
abbrev pub looked_up : ℕ → LocalServer → LocalServer
looked_up c s = (get_client_id c s).1

get_client_id-zero :
    (c : ℕ) (s : LocalServer)
    → lookup c s.clients ≡ none
    → ((get_client_id c s).0 ≡ 0) × (lookup c (looked_up c s).clients ≡ some 0)
unfolding get_client_id
get_client_id-zero c s h = ground (arith, index-none c s.clients, lookup-index c c s.clients)

-- If a client without a player sends input before its player is loaded, then its player is created
-- in the physics engine under a fresh identifier, but the client keeps the identifier 0, and when it
-- is removed the server neither deletes the player nor tells anyone.
pub input_before_load :
    (c : ℕ) (t : Text) (s : LocalServer)
    → lookup c s.clients ≡ none
    → let loaded = load_player c t (looked_up c s) in
      ((rest : List Effect) × (loaded.1 ≡ to_physics (add_char s.next_id t s.player_spawn) ∷ rest))
      × (lookup c loaded.0.clients ≡ some 0)
      × ((remove_client c loaded.0).1 ≡ [])
unfolding load_player remove_client get_client_id add_physical
input_before_load c t s h =
    let zero_id = (get_client_id-zero c s h).1 in
    let kept : lookup c (load_player c t (looked_up c s)).0.clients ≡ some 0 =
      ground (arith, lookup-insert c s.next_id c (looked_up c s).clients) in
    ((_, refl), kept, ground (arith, index-some c 0 (load_player c t (looked_up c s)).0.clients))
