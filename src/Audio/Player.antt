-- ===== src/Audio/Player.antt =====
-- client/openal/alaudio.cpp: what `run` does to the streams, the threads apart (see Lifecycle). The
-- streams are a `std::set` of pointers; `previous` is the static variable `previous_result` of
-- `StreamingFile::update`, one for all streams.
pub mod Single
pub mod Shared
pub mod Ending
use quintses.Common.{ℕ, zero, suc, Bool, true, false, List, [], ◌∷◌, ◌++◌, if◌then◌else◌}
use quintses.Common.Map.{Map, keys}
use quintses.Lifecycle.{Worker, Event, start, steps}
use quintses.Audio.{StreamingWav, AlCall, update}

pub record Player : Type 0 where
  pub streams : Map StreamingWav
  pub previous : Bool

-- `StreamingFile::update`, where OpenAL reports a processed buffer or none.
unfoldable pub poll :
    (ℕ → ℕ) → Bool → Bool → StreamingWav → Bool × Bool × StreamingWav × List AlCall
poll memory processed previous w =
    if processed then update memory previous w else (true, previous, w, [])

-- The loop over the streams, in the order of the set: the static variable, the streams that stay,
-- and what is called and deleted.
unfoldable pub update_streams :
    (ℕ → ℕ) → (ℕ → Bool) → Bool → Map StreamingWav → Bool × Map StreamingWav × List AlCall × List ℕ
unfolding poll
update_streams memory processed previous [] = (previous, [], [], [])
update_streams memory processed previous ((k, w) ∷ m) =
    let (alive, previous', w', calls) = poll memory (processed k) previous w in
    let (last, kept, more, deleted) = update_streams memory processed previous' m in
    (
      last,
      if alive then (k, w') ∷ kept else kept,
      calls ++ more,
      if alive then deleted else k ∷ deleted,
    )

-- The body of `while(!m_finish)`.
unfoldable pub play_round : (ℕ → ℕ) → (ℕ → Bool) → Player → Player × List AlCall × List ℕ
unfolding update_streams
play_round memory processed p =
    let (last, kept, calls, deleted) = update_streams memory processed p.previous p.streams in
    (record { streams = kept; previous = last }, calls, deleted)

-- Rounds in which OpenAL has processed a buffer of every stream.
unfoldable pub play_rounds : (ℕ → ℕ) → ℕ → Player → Player × List AlCall × List ℕ
play_rounds memory zero p = (p, [], [])
play_rounds memory (suc n) p =
    let (p', calls, deleted) = play_round memory (λ k. true) p in
    let (p'', more, others) = play_rounds memory n p' in (p'', calls ++ more, deleted ++ others)

-- `AlAudio`, with whether its device and context are open and the context is current.
pub record AlAudio : Type 0 where
  pub playing : Player
  pub device : Bool
  pub context : Bool
  pub current : Bool
  pub deleted : List ℕ

-- What `run` does before its loop, in it, and behind it.
unfoldable pub open_device : AlAudio → AlAudio
open_device a = record a { device = true; context = true; current = true }

unfoldable pub play_streams : (ℕ → ℕ) → (ℕ → Bool) → AlAudio → AlAudio
play_streams memory processed a =
    let (p, calls, deleted) = play_round memory processed a.playing in
    record a { playing = p; deleted = a.deleted ++ deleted }

unfoldable pub close_device : AlAudio → AlAudio
close_device a = record a {
  playing = record (a.playing) { streams = [] };
  device = false;
  context = false;
  current = false;
  deleted = a.deleted ++ keys a.playing.streams;
}

-- The constructor, as its thread starts; the streams are those that are there from the beginning.
unfoldable pub construct : Player → Worker AlAudio
unfolding start
construct p =
    start (record { playing = p; device = false; context = false; current = false; deleted = [] })

-- The thread and its owner, who constructs and finishes the player.
unfoldable pub al_steps : (ℕ → ℕ) → (ℕ → Bool) → List Event → Worker AlAudio → Worker AlAudio
unfolding open_device play_streams close_device
al_steps memory processed = steps open_device (play_streams memory processed) close_device
