-- ===== src/Programs.antt =====
-- quintses.cpp, qntcli.cpp and qntsrv.cpp: the main functions, as what their parts do together.
pub mod Single
pub mod Session
pub mod Remote
pub mod Parts
pub mod Signalled
use quintses.Common.{
  ℕ, Bool, true, false, List, [], ◌∷◌, ◌++◌, if◌then◌else◌, ◌||◌, ◌&&◌, not, ◌==◌, ◌+◌, ◌-◌,
}
use quintses.Messages.Server.{ServerMsg, Matrix, shutdown}
use quintses.Lifecycle.Returns.{is_finished}
use quintses.Client.{Effect, Round, init, mainloop, sends}
use quintses.Server as LocalServer
use quintses.Serving as Server
use quintses.Serving.{WorldFile, Serving, of_client, pushes}

-- `LocalClient cli(srv)` and `cli.mainloop()`: whether it returns, and the calls of the client.
unfoldable pub play : Bool → ℕ → List Round → Bool × List Effect
play is_local self rounds =
    let (c, out) = init self in
    let (ended, final, more) = mainloop is_local rounds c in (ended, out ++ more)

-- quintses.cpp, on a `LocalServer`.
unfoldable pub quintses_main : ℕ → List Round → Bool × List Effect
unfolding play
quintses_main self rounds = play LocalServer.is_local self rounds

-- The messages that a client pushes to its server.
unfoldable pub sent : List Effect → List ServerMsg
sent [] = []
sent (sends msg ∷ es) = msg ∷ sent es
sent (e ∷ es) = sent es

-- Where the main function of qntsrv.cpp stands: in `io_service.run`, behind it, and at its end; or an
-- exception has left `io_service.run`, or a server has been deleted whose thread had not ended.
pub data Main : Type 0 where
  serving_clients deleting returned : Main
  aborted deleted_early : Main

-- `stopped` says whether the watcher has stopped the `io_service`; its work is the `async_accept`, which
-- is under way if `accepting`, and the connections that wait for a message.
pub record Qntsrv : Type 0 where
  pub serving : Serving
  pub stopped : Bool
  pub accepting : Bool
  pub connections : ℕ
  pub main : Main

-- The steps of the server's threads, of a signal, of the watcher behind its `waitForTermination`, and of
-- the main function; and what the handlers meet within `io_service.run`: an `async_accept` that
-- succeeds or fails, a connection that ends, and a `read` that throws out of its handler.
pub data Event : Type 0 where
  of_server : Server.Event → Event
  signals of_watcher of_main : Event
  accepts accept_fails connection_ends read_throws : Event

unfoldable pub start : Matrix → Qntsrv
start identity = record {
  serving = Server.start identity;
  stopped = false;
  accepting = true;
  connections = 0;
  main = serving_clients;
}

-- `service.stop`
unfoldable pub watch : Qntsrv → Qntsrv
watch q = record q { stopped = if is_finished q.serving.owner then true else q.stopped }

-- `io_service.run` returns when it is stopped or has no work; then the `delete`.
abbrev pub has_work : Qntsrv → Bool
has_work q = q.accepting || not (q.connections == 0)

unfoldable pub main_step : Main → Qntsrv → Qntsrv
main_step serving_clients q = record q {
  main = if q.stopped || not (has_work q) then deleting else serving_clients;
}
main_step deleting q = record q {
  main = if is_finished q.serving.owner then returned else deleted_early;
}
main_step m q = q

-- A handler runs: the main function is in `io_service.run`.
abbrev pub is_handling : Main → Bool
is_handling serving_clients = true
is_handling m = false

-- `handleAccept` without and with an error, and the handlers of a connection.
unfoldable pub accept_one : Qntsrv → Qntsrv
accept_one q = record q {
  connections = if is_handling q.main && q.accepting then q.connections + 1 else q.connections;
}

unfoldable pub accept_none : Qntsrv → Qntsrv
accept_none q = record q { accepting = if is_handling q.main then false else q.accepting }

unfoldable pub lose_one : Qntsrv → Qntsrv
lose_one q = record q {
  connections = if is_handling q.main then q.connections - 1 else q.connections;
}

unfoldable pub read_fails : Qntsrv → Qntsrv
read_fails q = record q {
  main = if is_handling q.main && not (q.connections == 0) then aborted else q.main;
}

-- Behind an exception or the return of the main function the other threads may still move in the model.
module _ (w : WorldFile) where
  unfoldable pub step : Event → Qntsrv → Qntsrv
  unfolding watch main_step accept_one accept_none lose_one read_fails
  step (of_server e) q = record q { serving = Server.step w e q.serving }
  step signals q = record q { serving = Server.step w (of_client (pushes (shutdown 0))) q.serving }
  step of_watcher q = watch q
  step of_main q = main_step q.main q
  step accepts q = accept_one q
  step accept_fails q = accept_none q
  step connection_ends q = lose_one q
  step read_throws q = read_fails q

  unfoldable pub steps : List Event → Qntsrv → Qntsrv
  unfolding step
  steps [] q = q
  steps (e ∷ es) q = steps es (step e q)
