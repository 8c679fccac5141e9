-- ===== src/Programs/Remote/Calls.antt =====
-- What the client of qntcli.cpp calls.
use quintses.Common.{ℕ, ◌+◌, ◌≡◌, refl, ap, List, [], ◌∷◌, ◌++◌, arith, if◌then◌else◌}
use mathlib.Core.List.{append-nil}
use quintses.Messages.Client.{ClientMsg}
use quintses.Client.{
  Effect, XEvent, init, frame, leave, server_closed, renders, draws, swaps, waits, adds_client,
  sends,
}
use quintses.Client.Loop.{shutdowns, waitings, shutdowns-frame, waitings-frame}
use quintses.Network.Startup as Connection
use quintses.Network.Startup.{Adder, reading, adder_step, runner_step, is_aborted}
use quintses.Network.Startup.Stopping.{is_stopping}
use quintses.Programs.Remote.{
  Qntcli, Turn, of_player, of_thread, wakes, handler_fails, handler_throws, qntcli_start,
  player_step, thread_step, turn, turns,
}

shutdowns-append : (es fs : List Effect) → shutdowns (es ++ fs) ≡ shutdowns es + shutdowns fs
unfolding shutdowns
shutdowns-append [] fs = omega arith
shutdowns-append (sends msg ∷ es) fs = ground (arith, shutdowns-append es fs)
shutdowns-append (renders msg ∷ es) fs = shutdowns-append es fs
shutdowns-append (draws ∷ es) fs = shutdowns-append es fs
shutdowns-append (swaps ∷ es) fs = shutdowns-append es fs
shutdowns-append (waits ∷ es) fs = shutdowns-append es fs
shutdowns-append (adds_client c ∷ es) fs = shutdowns-append es fs

waitings-append : (es fs : List Effect) → waitings (es ++ fs) ≡ waitings es + waitings fs
unfolding waitings
waitings-append [] fs = omega arith
waitings-append (sends msg ∷ es) fs = waitings-append es fs
waitings-append (renders msg ∷ es) fs = waitings-append es fs
waitings-append (draws ∷ es) fs = waitings-append es fs
waitings-append (swaps ∷ es) fs = waitings-append es fs
waitings-append (waits ∷ es) fs = omega (arith, waitings-append es fs)
waitings-append (adds_client c ∷ es) fs = waitings-append es fs

-- The server has not been told to shut down, and has been waited for if the main function is behind
-- `mainloop`.
pub record Inv (q : Qntcli) : Type 0 where
  pub told : shutdowns q.calls ≡ 0
  pub waited : waitings q.calls ≡ (if is_stopping q.connection.adder then 1 else 0)

frame-counts :
    (msgs : List ClientMsg) (es : List XEvent) (q : Qntcli)
    → (shutdowns (q.calls ++ (frame msgs es q.client).1) ≡ shutdowns q.calls)
      × (waitings (q.calls ++ (frame msgs es q.client).1) ≡ waitings q.calls)
unfolding shutdowns waitings
frame-counts msgs es q =
    let out = (frame msgs es q.client).1 in
    let same = append-nil out in
    (
      omega (
        arith,
        shutdowns-append q.calls out,
        shutdowns-frame msgs es q.client [],
        ap shutdowns same,
      ),
      omega (
        arith,
        waitings-append q.calls out,
        waitings-frame msgs es q.client [],
        ap waitings same,
      ),
    )

turn-Inv : (t : Turn) (q : Qntcli) → Inv q → Inv (turn t q)
unfolding turn player_step thread_step server_closed shutdowns waitings init leave Connection.step
    adder_step runner_step
turn-Inv (of_player msgs es) q inv =
    let (no_shutdown, no_wait) = frame-counts msgs es q in
    record {
      told = ground (
        arith,
        inv.told,
        no_shutdown,
        shutdowns-append q.calls (init q.client.self).1,
        shutdowns-append q.calls (waits ∷ []),
      );
      waited = ground (
        arith,
        inv.waited,
        no_wait,
        waitings-append q.calls (init q.client.self).1,
        waitings-append q.calls (waits ∷ []),
      );
    }
turn-Inv of_thread q inv = record {
  told = ground (arith, inv.told);
  waited = ground (arith, inv.waited);
}
turn-Inv wakes q inv = record { told = inv.told; waited = ground (arith, inv.waited) }
turn-Inv handler_fails q inv = record { told = inv.told; waited = ground (arith, inv.waited) }
turn-Inv handler_throws q inv = record { told = inv.told; waited = ground (arith, inv.waited) }

pub turns-Inv : (ts : List Turn) (q : Qntcli) → Inv q → Inv (turns ts q)
unfolding turns
turns-Inv [] q inv = inv
turns-Inv (t ∷ ts) q inv = turns-Inv ts (turn t q) (turn-Inv t q inv)

pub start-Inv : (self : ℕ) → Inv (qntcli_start self)
unfolding qntcli_start Connection.launched shutdowns waitings
start-Inv self = record { told = refl; waited = refl }
