-- ===== src/Programs/Remote/Ending.antt =====
-- How the player's program ends, and what its client has done by then.
use quintses.Common.{
  ℕ, ◌-◌, ◌≤◌, ◌≡◌, Bool, true, List, [], ◌∷◌, arith, ◌⊎◌, inr, ◌||◌, if◌then◌else◌,
}
use quintses.Client.{server_closed}
use quintses.Client.Loop.{shutdowns, waitings}
use quintses.Network.Startup as Connection
use quintses.Network.Startup.{
  Adder, Runner, Startup, Move, connecting, asleep, connected, reading, stopping, asleep_stopping,
  terminated, starting, announcing, serving, closing, quitting, notifying, ended, aborted, of_adder,
  of_runner, spurious, fails, throws, launched, is_aborted, adder_step, runner_step,
}
use quintses.Network.Startup.Stopping.{
  rank, is_stopping, is_reading, is_terminated, Inv, step-Inv, step-is_reading,
}
use quintses.Programs.Remote.Calls.{start-Inv, turns-Inv}
use quintses.Programs.Remote.{Qntcli, Turn, qntcli_start, player_step, thread_step, turn, turns}
use quintses.Programs.Remote.Turns.{
  player_turns, thread_turns, is_thread, turn-keeps, Sound, turn-Sound, turns-Sound, start-Sound,
  turns-is_reading,
}

-- The service is stopped, or the program has been aborted.
abbrev IsStopped : Startup → Type 0
IsStopped c = (is_aborted c.runner ≡ true) ⊎ (c.stopped ≡ true)

-- The service is stopped, or will be by the next step of the main function.
abbrev IsClosing : Qntcli → ℕ → Type 0
IsClosing q n = IsStopped q.connection ⊎ ((q.client.finished ≡ true) × (1 ≤ n))

turn-IsClosing :
    (t : Turn) (ts : List Turn) (q : Qntcli)
    → is_reading q.connection.adder ≡ true
    → Inv q.connection
    → IsClosing q (player_turns (t ∷ ts))
    → IsClosing (turn t q) (player_turns ts)
unfolding turn player_step thread_step server_closed Connection.step adder_step runner_step
turn-IsClosing t ts q reads inv h = ground (arith, reads, inv.stops, h)

turn-rank :
    (t : Turn) (q : Qntcli)
    → IsStopped q.connection
    → IsStopped (turn t q).connection
      × (rank (turn t q).connection.runner
          ≤ rank q.connection.runner - (if is_thread t then 1 else 0))
unfolding turn player_step thread_step server_closed Connection.step adder_step runner_step
turn-rank t q h = (ground (arith, h), ground (arith, h))

turns-IsClosing :
    (ts : List Turn) (q : Qntcli)
    → is_reading q.connection.adder ≡ true
    → Inv q.connection
    → IsClosing q (player_turns ts)
    → IsStopped (turns ts q).connection
unfolding turns
turns-IsClosing [] q reads inv h = ground (arith, h)
turns-IsClosing (t ∷ ts) q reads inv h =
    turns-IsClosing ts (turn t q)
      (turn-keeps (λ c. is_reading c.adder ≡ true) step-is_reading t q reads)
      (turn-keeps Inv step-Inv t q inv) (turn-IsClosing t ts q reads inv h)

turns-rank :
    (ts : List Turn) (q : Qntcli)
    → IsStopped q.connection
    → rank q.connection.runner ≤ thread_turns ts
    → rank (turns ts q).connection.runner ≡ 0
unfolding turns
turns-rank [] q h k = omega (arith, k)
turns-rank (t ∷ ts) q h k =
    let (h', less) = turn-rank t q h in turns-rank ts (turn t q) h' (ground (arith, less, k))

-- What is left of the main function once the thread has ended.
abbrev left : Adder → ℕ
left reading = 2
left terminated = 0
left a = 1

left-le : (a : Adder) → left a ≤ 2
left-le a = ground arith

-- The main function has come to its end, or the program has been aborted.
abbrev is_over : Qntcli → Bool
is_over q = is_terminated q.connection.adder || is_aborted q.connection.runner

turn-is_over :
    (t : Turn) (ts : List Turn) (q : Qntcli)
    → Sound q
    → is_reading q.connection.adder ≡ true
    → rank q.connection.runner ≡ 0
    → (is_over q ≡ true) ⊎ (left q.connection.adder ≤ player_turns (t ∷ ts))
    → (rank (turn t q).connection.runner ≡ 0)
      × ((is_over (turn t q) ≡ true) ⊎ (left (turn t q).connection.adder ≤ player_turns ts))
unfolding turn player_step thread_step server_closed Connection.step adder_step runner_step
turn-is_over t ts q sound reads h k =
    let inv = sound.connection in
    (ground (arith, reads, h), ground (arith, reads, h, k, sound.told, inv.running, inv.fits))

turns-is_over :
    (ts : List Turn) (q : Qntcli)
    → Sound q
    → is_reading q.connection.adder ≡ true
    → rank q.connection.runner ≡ 0
    → (is_over q ≡ true) ⊎ (left q.connection.adder ≤ player_turns ts)
    → is_over (turns ts q) ≡ true
unfolding turns
turns-is_over [] q sound reads h k = ground (arith, sound.connection.fits, reads, h, k)
turns-is_over (t ∷ ts) q sound reads h k =
    let (h', k') = turn-is_over t ts q sound reads h k in
    turns-is_over ts (turn t q) (turn-Sound t q sound)
      (turn-keeps (λ c. is_reading c.adder ≡ true) step-is_reading t q reads) h' k'

rank-le : (r : Runner) → rank r ≤ 6
rank-le r = ground arith

-- The player on a remote server, in every schedule of the main function, with whatever messages and
-- events its rounds find, of the connection's thread, of its handlers, which may fail, and of
-- spurious wakeups: if the constructor of the client has returned, and if the window has been closed,
-- the server has closed or a handler has stopped the service, then after one more step of the
-- main function, six of the thread and two of the main function, in this order, whatever else comes
-- between them, `waitForTermination` has returned, unless an exception has left a handler and
-- ended the program. By then the client has told the server never to shut down, and has waited for it
-- once if `waitForTermination` has returned.
pub qntcli_ends :
    (self : ℕ) (before gs es fs : List Turn)
    → is_reading (turns before (qntcli_start self)).connection.adder ≡ true
    → ((turns before (qntcli_start self)).client.finished ≡ true)
      ⊎ ((turns before (qntcli_start self)).connection.stopped ≡ true)
    → 1 ≤ player_turns gs
    → 6 ≤ thread_turns es
    → 2 ≤ player_turns fs
    → let after = turns fs (turns es (turns gs (turns before (qntcli_start self)))) in
      ((is_terminated after.connection.adder ≡ true) ⊎ (is_aborted after.connection.runner ≡ true))
      × (shutdowns after.calls ≡ 0)
      × (waitings after.calls ≡ (if is_stopping after.connection.adder then 1 else 0))
qntcli_ends self before gs es fs reads closes first threads last =
    let q = turns before (qntcli_start self) in
    let q1 = turns gs q in
    let q2 = turns es q1 in
    let sound = turns-Sound before (qntcli_start self) (start-Sound self) in
    let stopped = turns-IsClosing gs q reads sound.connection (ground (arith, closes, first)) in
    let over = turns-rank es q1 stopped (omega (arith, threads, rank-le q1.connection.runner)) in
    let sound2 = turns-Sound es q1 (turns-Sound gs q sound) in
    let reads2 = turns-is_reading es q1 (turns-is_reading gs q reads) in
    let tidy =
      turns-Inv fs q2 (
        turns-Inv es q1 (turns-Inv gs q (turns-Inv before (qntcli_start self) (start-Inv self)))) in
    let done =
      turns-is_over fs q2 sound2 reads2 over
        (inr (omega (arith, last, left-le q2.connection.adder))) in
    (ground (arith, done), tidy.told, tidy.waited)
