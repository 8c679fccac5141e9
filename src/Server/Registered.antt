-- ===== src/Server/Registered.antt =====
-- Which clients a server knows, and what its handlers do to them.
use quintses.Common.{ℕ, ◌≡◌, ◌≢◌, Bool, true, arith, ◌||◌}
use quintses.Common.Map.{has, index, lookup-index, has-insert, has-erase}
use quintses.Messages.Server.{ServerMsg, Text}
use quintses.Server.{
  LocalServer, Effect, finish_physics, init, handle, add_client, remove_client, get_client_id,
  run_tick_callbacks, push_client_transforms, close_all, get_next_identifier,
}

-- The client plays or waits in the lobby.
abbrev pub is_registered : ℕ → LocalServer → Bool
is_registered c s = has c s.clients || has c s.lobby_clients

load_player-is_registered :
    (c k : ℕ) (t : Text) (s : LocalServer)
    → is_registered c s ≡ true
    → is_registered c (quintses.Server.load_player k t s).0 ≡ true
unfolding quintses.Server.load_player
load_player-is_registered c k t s h =
    ground
      (arith, h, has-insert k (get_next_identifier s).0 s.clients c, has-erase k s.lobby_clients c)

pub handle-is_registered :
    (c : ℕ) (msg : ServerMsg) (s : LocalServer)
    → is_registered c s ≡ true
    → is_registered c (handle msg s).0 ≡ true
unfolding handle
handle-is_registered c (ServerMsg.load_player k t) s h = load_player-is_registered c k t s h
handle-is_registered c msg s h = h

pub add_client-is_registered :
    (c k : ℕ) (s : LocalServer)
    → is_registered c s ≡ true
    → is_registered c (add_client k s).0 ≡ true
unfolding add_client
add_client-is_registered c k s h = ground (arith, h, has-insert k tt s.lobby_clients c)

pub get_client_id-is_registered :
    (c k : ℕ) (s : LocalServer)
    → is_registered c s ≡ true
    → is_registered c (get_client_id k s).1 ≡ true
unfolding get_client_id
get_client_id-is_registered c k s h = ground (arith, h, lookup-index k c s.clients)

pub remove_client-is_registered :
    (c k : ℕ) (s : LocalServer)
    → k ≢ c
    → is_registered c s ≡ true
    → is_registered c (remove_client k s).0 ≡ true
unfolding remove_client
remove_client-is_registered c k s other h = ground (
  arith,
  h,
  other,
  has-erase k (index k s.clients).1 c,
  lookup-index k c s.clients,
  has-erase k s.lobby_clients c,
)
