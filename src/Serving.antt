-- ===== src/Serving.antt =====
-- server/localserver.cpp: the threads of `LocalServer`. The constructor, `run` and `waitForTermination`
-- run as in Lifecycle, but for what ends the loop of `run`: a message. What a block does under a mutex is
-- one step, and so are the constructor and `finish` of the engine, which return by Lifecycle.
pub mod Rounds
pub mod Threads
pub mod Progress
pub mod Returns
pub mod Delivered
pub mod Told
pub mod Faults
use quintses.Common.{
  ℕ, zero, suc, Bool, true, false, Option, none, some, List, [], ◌∷◌, ◌++◌, ◌==◌, not, ◌&&◌, ◌||◌,
  if◌then◌else◌,
}
use quintses.Socket.{Result, ok, err}
use quintses.Messages.Server.{ServerMsg, Matrix}
use quintses.Server.{
  LocalServer, Effect, finish_physics, init, get_client_id, add_client, remove_client, handle,
  push_client_transforms, run_tick_callbacks, close_all,
}
use quintses.Common.Map.{keys}
use quintses.Lifecycle.{
  Owner, notify_all, constructing, waiting_start, built, finishing, waiting_end, finished,
}
use quintses.Xml.{Dom, Math}
use quintses.World.{load_world}

-- What `loadWorld` finds, and what it is read with.
pub record WorldFile : Type 1 where
  pub dom : Dom
  pub math : Math
  pub fuel : ℕ
  pub file : Option (List ℕ)

-- Where `run` stands, before each step. `lost` is a thread that `loadWorld` has not given back.
pub data Thread : Type 0 where
  starting hosting announcing loading looping leaving closing closed quitting ended lost : Thread

-- `m_physics`
pub data Engine : Type 0 where
  absent alive deleted : Engine

-- `inbox` are the messages in the queue, `calls` what has been called so far, and `fault` says
-- whether the engine has been called while there was none.
pub record Serving : Type 0 where
  pub owner : Owner
  pub thread : Thread
  pub server : LocalServer
  pub inbox : List ServerMsg
  pub engine : Engine
  pub calls : List Effect
  pub fault : Bool

-- The constructor, as its thread starts.
unfoldable pub start : Matrix → Serving
start identity = record {
  owner = constructing;
  thread = starting;
  server = init identity;
  inbox = [];
  engine = absent;
  calls = [];
  fault = false;
}

-- The calls that other threads make of a server that is built.
pub data Call : Type 0 where
  pushes : ServerMsg → Call
  adds removes looks_up : ℕ → Call
  pushes_transforms : List (ℕ × Matrix) → Call
  ticks : Call

-- Who moves next. The thread is handed the message that stands at a place of the queue, since it
-- depends on the queue which one comes first. The condition variable may wake the owner unasked.
pub data Event : Type 0 where
  of_owner spurious : Event
  of_thread : ℕ → Event
  of_client : Call → Event

-- The call of a handler, and what it calls.
unfoldable pub does : LocalServer × List Effect → Serving → Serving
does (server, out) s = record s { server = server; calls = s.calls ++ out }

-- The loop of the constructor.
unfoldable pub construct : Serving → Serving
construct s = record s { owner = if s.server.running then built else waiting_start }

-- The call of `waitForTermination`, and its loop.
unfoldable pub await_end : Serving → Serving
await_end s = record s { owner = if s.server.running then waiting_end else finished }

unfoldable pub owner_step : Owner → Serving → Serving
unfolding construct await_end
owner_step constructing s = construct s
owner_step built s = record s { owner = finishing }
owner_step finishing s = await_end s
owner_step o s = s

-- The message at a place of a queue that begins with `msg`, and the others.
unfoldable pub pick : ℕ → ServerMsg → List ServerMsg → ServerMsg × List ServerMsg
pick zero msg msgs = (msg, msgs)
pick (suc n) msg [] = (msg, [])
pick (suc n) msg (next ∷ msgs) = let (taken, left) = pick n next msgs in (taken, msg ∷ left)

-- A round of the loop: `wait_pop` waits as long as the queue is empty.
unfoldable pub serve : ServerMsg × List ServerMsg → Serving → Serving
unfolding does
serve (ServerMsg.shutdown c, left) s = record s { thread = leaving; inbox = left }
serve (msg, left) s = does (handle msg s.server) (record s { inbox = left })

unfoldable pub serve_next : ℕ → List ServerMsg → Serving → Serving
unfolding pick serve
serve_next n [] s = s
serve_next n (msg ∷ msgs) s = serve (pick n msg msgs) s

-- `loadWorld`, on its return.
unfoldable pub loaded : Result (Option (LocalServer × List Effect)) → Serving → Serving
unfolding does
loaded (ok (some r)) s = does r (record s { thread = looping })
loaded r s = record s { thread = lost }

unfoldable pub thread_step : WorldFile → ℕ → Thread → Serving → Serving
unfolding serve_next loaded does
thread_step w n starting s = record s { thread = hosting; engine = alive }
thread_step w n hosting s = record s {
  thread = announcing;
  server = record (s.server) { running = true };
}
thread_step w n announcing s = record s { thread = loading; owner = notify_all s.owner }
thread_step w n loading s = loaded (load_world w.dom w.math w.fuel w.file s.server) s
thread_step w n looping s = serve_next n s.inbox s
thread_step w n leaving s =
    does (s.server, finish_physics ∷ []) (record s { thread = closing; engine = deleted })
thread_step w n closing s =
    does (s.server, close_all (keys s.server.clients) ++ close_all (keys s.server.lobby_clients))
      (record s { thread = closed })
thread_step w n closed s = record s {
  thread = quitting;
  server = record (s.server) { running = false };
}
thread_step w n quitting s = record s { thread = ended; owner = notify_all s.owner }
thread_step w n ended s = s
thread_step w n lost s = s

abbrev pub is_built : Owner → Bool
is_built constructing = false
is_built waiting_start = false
is_built o = true

abbrev pub is_alive : Engine → Bool
is_alive alive = true
is_alive e = false

-- Whether `removeClient` calls the engine.
abbrev pub has_player : ℕ → LocalServer → Bool
has_player c s = not ((get_client_id c s).0 == 0)

unfoldable pub client_step : Call → Serving → Serving
unfolding does
client_step (pushes msg) s = record s { inbox = s.inbox ++ msg ∷ [] }
client_step (adds c) s = does (add_client c s.server) s
client_step (removes c) s =
    does (remove_client c s.server)
      (record s { fault = s.fault || (has_player c s.server && not (is_alive s.engine)) })
client_step (looks_up c) s = record s { server = (get_client_id c s.server).1 }
client_step (pushes_transforms ts) s = does (s.server, push_client_transforms ts s.server) s
client_step ticks s = does (run_tick_callbacks s.server) s

module _ (w : WorldFile) where
  unfoldable pub step : Event → Serving → Serving
  unfolding owner_step thread_step client_step notify_all
  step of_owner s = owner_step s.owner s
  step (of_thread n) s = thread_step w n s.thread s
  step (of_client c) s = let s' = client_step c s in if is_built s.owner then s' else s
  step spurious s = record s { owner = notify_all s.owner }

  -- The events of a schedule, in order.
  unfoldable pub steps : List Event → Serving → Serving
  unfolding step
  steps [] s = s
  steps (e ∷ es) s = steps es (step e s)
