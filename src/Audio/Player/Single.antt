-- ===== src/Audio/Player/Single.antt =====
-- One stream in the player: it is played to its end and then deleted.
use quintses.Common.{ℕ, suc, ◌≡◌, refl, Bool, true, List, [], ◌∷◌, ◌++◌}
use quintses.Audio.{StreamingWav, AlCall}
use quintses.Audio.Player.{Player, play_round, play_rounds}

abbrev pub alone : ℕ → StreamingWav → Bool → Player
alone k w previous = record { streams = (k, w) ∷ []; previous = previous }

-- A round that is known, before `n` others.
unfoldable pub behind :
    List AlCall → List ℕ → Player × List AlCall × List ℕ → Player × List AlCall × List ℕ
behind calls deleted (p, more, others) = (p, calls ++ more, deleted ++ others)

pub play_rounds_next :
    (memory : ℕ → ℕ) (n : ℕ) (p : Player) {p' : Player} {calls : List AlCall} {deleted : List ℕ}
    → play_round memory (λ i. true) p ≡ (p', calls, deleted)
    → play_rounds memory (suc n) p ≡ behind calls deleted (play_rounds memory n p')
unfolding play_rounds behind
play_rounds_next memory n p h = rw h refl

pub play_rounds_none : (memory : ℕ → ℕ) (p : Player) → play_rounds memory 0 p ≡ (p, [], [])
unfolding play_rounds
play_rounds_none memory p = refl
