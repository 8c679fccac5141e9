-- ===== src/Server/Shutdown.antt =====
-- The loop of `run` and what follows it.
use quintses.Common.{ℕ, ◌≡◌, ◌≢◌, refl, true, false, List, [], ◌∷◌, ◌++◌, All}
use quintses.Messages.Server.{ServerMsg, shutdown, type, shutdown_message}
use quintses.Server.{LocalServer, Effect, handle, loop}

-- The state and the effects of handling messages one after another.
unfoldable pub handle_all : List ServerMsg → LocalServer → LocalServer × List Effect
handle_all [] s = (s, [])
handle_all (msg ∷ msgs) s =
    let (s', out) = handle_all msgs (handle msg s).0 in (s', (handle msg s).1 ++ out)

abbrev pub IsOrdinary : ServerMsg → Type 0
IsOrdinary msg = type msg ≢ shutdown_message

-- The loop handles the messages before the first `ShutdownMessage` in order, stops there, and leaves
-- all that follows unread.
pub loop-handle_all :
    (before after : List ServerMsg) (c : ℕ) (s : LocalServer)
    → All IsOrdinary before
    → loop (before ++ shutdown c ∷ after) s
      ≡ (true, (handle_all before s).0, (handle_all before s).1)
unfolding loop handle_all type
loop-handle_all [] after c s h = refl
loop-handle_all (shutdown d ∷ before) after c s h = absurd (h.0 refl)
loop-handle_all (msg ∷ before) after c s h =
    rw (loop-handle_all before after c (handle msg s).0 h.1)

-- On messages without a `ShutdownMessage` the loop handles all of them in order and goes on.
pub loop_open :
    (msgs : List ServerMsg) (s : LocalServer)
    → All IsOrdinary msgs
    → loop msgs s ≡ (false, (handle_all msgs s).0, (handle_all msgs s).1)
unfolding loop handle_all type
loop_open [] s h = refl
loop_open (shutdown d ∷ msgs) s h = absurd (h.0 refl)
loop_open (msg ∷ msgs) s h = rw (loop_open msgs (handle msg s).0 h.1)
