-- ===== src/Programs/Remote/Turns.antt =====
-- The turns of the player's program, and what all of them keep.
use quintses.Common.{
  ℕ, suc, ◌≤◌, ◌≡◌, Bool, true, false, List, [], ◌∷◌, arith, ◌⊎◌, inl, inr, either,
}
use quintses.Messages.Client.{ClientMsg}
use quintses.Client.{XEvent, server_closed}
use quintses.Network.Startup as Connection
use quintses.Network.Startup.{
  Adder, Runner, Startup, Move, connecting, asleep, connected, reading, stopping, asleep_stopping,
  terminated, starting, announcing, serving, closing, quitting, notifying, ended, aborted, of_adder,
  of_runner, spurious, fails, throws, launched, is_aborted, adder_step, runner_step,
}
use quintses.Network.Startup.Stopping.{
  rank, is_reading, Inv, launched-Inv, step-Inv, step-is_reading,
}
use quintses.Programs.Remote.{
  Qntcli, Turn, of_player, of_thread, wakes, handler_fails, handler_throws, qntcli_start,
  player_step, thread_step, turn, turns,
}

-- How often the main function and the thread move.
abbrev pub player_turns : List Turn → ℕ
player_turns [] = 0
player_turns (of_player msgs es ∷ ts) = suc (player_turns ts)
player_turns (t ∷ ts) = player_turns ts

abbrev pub thread_turns : List Turn → ℕ
thread_turns [] = 0
thread_turns (of_thread ∷ ts) = suc (thread_turns ts)
thread_turns (t ∷ ts) = thread_turns ts

abbrev pub is_thread : Turn → Bool
is_thread of_thread = true
is_thread t = false

-- What holds of the connection holds behind every turn, if its moves keep it.
module _ (P : Startup → Type 0)
    (keeps : (e : Move) (c : Startup) → P c → P (Connection.step e c)) where
  player_step-keeps :
      (a : Adder) (msgs : List ClientMsg) (es : List XEvent) (q : Qntcli)
      → P q.connection
      → P (player_step a msgs es q).connection
  unfolding player_step
  player_step-keeps reading msgs es q h =
      either (λ (r : Qntcli). P r.connection) q.client.finished _ _ (keeps of_adder q.connection h)
        h
  player_step-keeps connecting msgs es q h = keeps of_adder q.connection h
  player_step-keeps asleep msgs es q h = keeps of_adder q.connection h
  player_step-keeps connected msgs es q h = keeps of_adder q.connection h
  player_step-keeps stopping msgs es q h = keeps of_adder q.connection h
  player_step-keeps asleep_stopping msgs es q h = keeps of_adder q.connection h
  player_step-keeps terminated msgs es q h = keeps of_adder q.connection h

  thread_step-keeps : (r : Runner) (q : Qntcli) → P q.connection → P (thread_step r q).connection
  unfolding thread_step
  thread_step-keeps starting q h = keeps of_runner q.connection h
  thread_step-keeps announcing q h = keeps of_runner q.connection h
  thread_step-keeps serving q h = keeps of_runner q.connection h
  thread_step-keeps closing q h = keeps of_runner q.connection h
  thread_step-keeps quitting q h = keeps of_runner q.connection h
  thread_step-keeps notifying q h = keeps of_runner q.connection h
  thread_step-keeps ended q h = keeps of_runner q.connection h
  thread_step-keeps aborted q h = keeps of_runner q.connection h

  pub turn-keeps : (t : Turn) (q : Qntcli) → P q.connection → P (turn t q).connection
  unfolding turn
  turn-keeps (of_player msgs es) q h =
      either (λ (r : Qntcli). P r.connection) (is_aborted q.connection.runner) _ _ h
        (player_step-keeps q.connection.adder msgs es q h)
  turn-keeps of_thread q h = thread_step-keeps q.connection.runner q h
  turn-keeps wakes q h = keeps spurious q.connection h
  turn-keeps handler_fails q h = keeps fails q.connection h
  turn-keeps handler_throws q h = keeps throws q.connection h

-- Within the closing steps of `run` the client has been told that the server has closed.
pub record Sound (q : Qntcli) : Type 0 where
  pub connection : Inv q.connection
  pub told :
      (is_aborted q.connection.runner ≡ true)
      ⊎ (3 ≤ rank q.connection.runner)
      ⊎ (q.client.finished ≡ true)

pub turn-Sound : (t : Turn) (q : Qntcli) → Sound q → Sound (turn t q)
unfolding turn player_step thread_step server_closed Connection.step adder_step runner_step
turn-Sound t q sound = record {
  connection = turn-keeps Inv step-Inv t q sound.connection;
  told = ground (arith, sound.told);
}

pub turns-Sound : (ts : List Turn) (q : Qntcli) → Sound q → Sound (turns ts q)
unfolding turns
turns-Sound [] q sound = sound
turns-Sound (t ∷ ts) q sound = turns-Sound ts (turn t q) (turn-Sound t q sound)

pub start-Sound : (self : ℕ) → Sound (qntcli_start self)
unfolding qntcli_start launched
start-Sound self = record { connection = launched-Inv; told = inr (inl (omega arith)) }

pub turns-is_reading :
    (ts : List Turn) (q : Qntcli)
    → is_reading q.connection.adder ≡ true
    → is_reading (turns ts q).connection.adder ≡ true
unfolding turns
turns-is_reading [] q h = h
turns-is_reading (t ∷ ts) q h =
    turns-is_reading ts (turn t q)
      (turn-keeps (λ c. is_reading c.adder ≡ true) step-is_reading t q h)
