-- ===== src/Audio.antt =====
-- client/openal/streamingfile.cpp and client/openal/streamingwav.cpp: a wave file that is played through
-- two buffers of OpenAL. The calls of OpenAL are effects, in their order.
pub mod Stream
pub mod Headers
pub mod Player
use quintses.Common.{
  ℕ, zero, suc, ◌+◌, ◌-◌, ◌*◌, ◌%◌, ◌^◌, Bool, true, false, List, [], ◌∷◌, ◌++◌, ltb, ◌==◌,
  if◌then◌else◌,
}

-- The formats of OpenAL that the code names.
pub data AlFormat : Type 0 where
  mono8 stereo8 mono16 stereo16 : AlFormat

-- `m_file` is what of the file has not been read; `m_pos` and `m_len` are of type `size_t`.
pub record StreamingWav : Type 0 where
  pub file : List ℕ
  pub pos : ℕ
  pub len : ℕ
  pub next_buffer : ℕ
  pub format : AlFormat
  pub frequency : ℕ

pub data AlCall : Type 0 where
  buffer_data : ℕ → AlFormat → List ℕ → ℕ → AlCall
  queues unqueues : List ℕ → AlCall
  plays : AlCall

-- `new char[n]`: memory as it is.
unfoldable pub fresh_bytes : (ℕ → ℕ) → ℕ → List ℕ
fresh_bytes memory zero = []
fresh_bytes memory (suc n) = memory n ∷ fresh_bytes memory n

-- `m_file.read` into some bytes: those that the file does not reach stay.
unfoldable pub read_into : List ℕ → List ℕ → (List ℕ) × (List ℕ)
read_into [] file = ([], file)
read_into (old ∷ bytes) [] = (old ∷ bytes, [])
read_into (old ∷ bytes) (b ∷ file) = let (filled, rest) = read_into bytes file in (b ∷ filled, rest)

abbrev pub buffer_len : ℕ
buffer_len = 2 ^ 16

-- `m_next_buffer ^= 1`
abbrev pub toggle : ℕ → ℕ
toggle b = if b % 2 == 0 then b + 1 else b - 1

-- `fillNextBuffer` on data that is there.
unfoldable pub fill_next_buffer : List ℕ → StreamingWav → StreamingWav × List AlCall
fill_next_buffer bytes w = (
  record w { next_buffer = toggle w.next_buffer },
  buffer_data w.next_buffer w.format bytes w.frequency ∷ [],
)

-- `readyNextBuffer`: the size of the next buffer, and the function.
unfoldable pub next_size : ℕ → ℕ
next_size remaining = if ltb remaining buffer_len then remaining else buffer_len

unfoldable pub ready_next_buffer : (ℕ → ℕ) → StreamingWav → Bool × StreamingWav × List AlCall
unfolding fill_next_buffer
ready_next_buffer memory w =
    let remaining = (w.len + (2 ^ 64 - w.pos)) % 2 ^ 64 in
    let size = next_size remaining in
    let (bytes, rest) = read_into (fresh_bytes memory size) w.file in
    let (filled, calls) =
      fill_next_buffer bytes (record w { pos = (w.pos + size) % 2 ^ 64; file = rest }) in
    if remaining == 0 then (false, w, []) else (true, filled, calls)

-- `play` behind `readHeaders`.
unfoldable pub play : (ℕ → ℕ) → StreamingWav → StreamingWav × List AlCall
unfolding ready_next_buffer
play memory w =
    let (_, one, first) = ready_next_buffer memory w in
    let (_, two, second) = ready_next_buffer memory one in
    (two, first ++ (second ++ queues (0 ∷ 1 ∷ []) ∷ plays ∷ []))

-- `update` where OpenAL reports a processed buffer: the result, and the static `previous_result`.
unfoldable pub update : (ℕ → ℕ) → Bool → StreamingWav → Bool × Bool × StreamingWav × List AlCall
unfolding ready_next_buffer
update memory previous w =
    let (more, next, calls) = ready_next_buffer memory w in
    let again : List AlCall = if more then queues (w.next_buffer ∷ []) ∷ [] else [] in
    let out : List AlCall = unqueues (w.next_buffer ∷ []) ∷ (calls ++ again) in
    if more
    then (true, more, next, out)
    else if previous
    then (true, more, next, out)
    else (false, previous, next, out)
