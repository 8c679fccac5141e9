-- ===== src/Physics/Life.antt =====
-- server/bullet/btphysics.cpp: the thread of `BtPhysics`, by Lifecycle: what `run` does before its
-- loop, in it, and behind it. What other threads do meanwhile is what each round finds: the server,
-- and the messages that `try_pop` returns. A round that faults ends the work.
pub mod Ending
use quintses.Common.{List, [], ◌∷◌, ◌++◌}
use quintses.Socket.{Result, ok, err}
use quintses.Messages.Server.{ServerMsg}
use quintses.Server.{LocalServer, Effect}
use quintses.Lifecycle.{Worker, Event, start, steps}
use quintses.Physics.{BtPhysics, init}
use quintses.Physics.Run.{Bullet, Running, round, close_world}

-- What a round finds.
pub record Arrivals : Type 0 where
  pub server : LocalServer
  pub messages : List ServerMsg

module _ (b : Bullet) where
  pub record Life : Type 0 where
    pub running : Running b
    pub coming : List Arrivals
    pub calls : List Effect

  -- `run` before its loop: a world without objects.
  unfoldable pub open_world : Result Life → Result Life
  open_world (err e) = err e
  open_world (ok l) = ok (record l {
    running = record (l.running) {
      physics = record (l.running.physics) {
        world = record { bodies = []; ghosts = []; actions = [] };
      };
    };
  })

  abbrev pub behind : List Arrivals → Life → Result (Running b × List Effect) → Result Life
  behind coming l (err e) = err e
  behind coming l (ok (r, out)) =
      ok (record { running = r; coming = coming; calls = l.calls ++ out })

  -- The round that the next arrivals begin; behind the last of them no message comes and the server
  -- stays.
  unfoldable pub play_next : List Arrivals → Life → Result Life
  unfolding round
  play_next [] l = behind [] l (round b [] l.running)
  play_next (a ∷ coming) l =
      behind coming l (round b a.messages (record (l.running) { server = a.server }))

  unfoldable pub live_round : Result Life → Result Life
  unfolding play_next
  live_round (err e) = err e
  live_round (ok l) = play_next l.coming l

  -- `run` behind its loop: the two loops over the objects.
  unfoldable pub close_all : Result Life → Result Life
  unfolding close_world
  close_all (err e) = err e
  close_all (ok l) = ok (record l {
    running = record (l.running) {
      physics = record (l.running.physics) { world = close_world l.running.physics };
    };
  })

  -- The constructor, as its thread starts.
  unfoldable pub construct : LocalServer → b.Simulation → List Arrivals → Worker (Result Life)
  unfolding init start
  construct s sim coming = start (
      ok (record {
        running = record { server = s; physics = init; simulation = sim };
        coming = coming;
        calls = [];
      }))

  -- The thread and its owner, who constructs and finishes the engine.
  unfoldable pub bt_steps : List Event → Worker (Result Life) → Worker (Result Life)
  bt_steps = steps open_world live_round close_all
