-- ===== src/Audio/Headers.antt =====
-- `StreamingWav::readHeaders`.
use quintses.Common.{
  ℕ, ◌^◌, ◌<◌, ◌≡◌, ap, ◌∙◌, ◌&&◌, ◌||◌, List, [], ◌∷◌, ◌++◌, take, drop, ltb, ◌==◌, if◌then◌else◌,
}
use quintses.Common.Text.{text_eq}
use quintses.Bytes.{to_bytes, from_bytes, from_bytes-to_bytes}
use quintses.Audio.{
  StreamingWav, AlFormat, mono8, stereo8, mono16, stereo16, fresh_bytes, read_into,
}

-- The exceptions, in the order of the code.
pub data HeaderError : Type 0 where
  not_riff not_wave no_format not_pcm bad_bits bad_channels no_samples : HeaderError

pub data Headers : Type 0 where
  loaded : StreamingWav → Headers
  thrown : HeaderError → Headers

abbrev pub riff_id : List ℕ
riff_id = b'R' ∷ b'I' ∷ b'F' ∷ b'F' ∷ []

abbrev pub wave_id : List ℕ
wave_id = b'W' ∷ b'A' ∷ b'V' ∷ b'E' ∷ []

abbrev pub fmt_id : List ℕ
fmt_id = b'f' ∷ b'm' ∷ b't' ∷ b' ' ∷ []

abbrev pub data_id : List ℕ
data_id = b'd' ∷ b'a' ∷ b't' ∷ b'a' ∷ []

-- The field of `size` bytes at some offset of a struct.
unfoldable pub field : ℕ → ℕ → List ℕ → ℕ
unfolding from_bytes
field offset size bytes = from_bytes (take size (drop offset bytes))

-- The chain of `if` that sets the stream properties; without a channel it sets nothing.
unfoldable pub set_format : ℕ → ℕ → ℕ → StreamingWav → StreamingWav
set_format bits channels rate w =
    if bits == 8 && channels == 1
    then record w { format = mono8; frequency = rate }
    else if bits == 8 && channels == 2
    then record w { format = stereo8; frequency = rate }
    else if bits == 16 && channels == 1
    then record w { format = mono16; frequency = rate }
    else if bits == 16 && channels == 2
    then record w { format = stereo16; frequency = rate }
    else w

-- `memory` is what the structs hold before they are read.
unfoldable pub read_headers : (ℕ → ℕ) → StreamingWav → Headers
unfolding read_into fresh_bytes field set_format
read_headers memory w =
    let (riff, rest) = read_into (fresh_bytes memory 8) w.file in
    let (ftype, rest') = read_into (fresh_bytes memory 4) rest in
    let (fmt_riff, rest'') = read_into riff rest' in
    let (fmt, rest3) = read_into (fresh_bytes memory 16) rest'' in
    let (data_riff, samples) = read_into fmt_riff rest3 in
    let bits = field 14 2 fmt in
    let channels = field 2 2 fmt in
    if text_eq (take 4 riff) riff_id
    then if text_eq ftype wave_id
      then if text_eq (take 4 fmt_riff) fmt_id
        then if field 0 2 fmt == 1
          then if bits == 8 || bits == 16
            then if ltb 2 channels
              then thrown bad_channels
              else if text_eq (take 4 data_riff) data_id
              then loaded (record (set_format bits channels (field 4 4 fmt) w) {
                file = samples;
                len = field 4 4 data_riff;
                pos = 0;
              })
              else thrown no_samples
            else thrown bad_bits
          else thrown not_pcm
        else thrown no_format
      else thrown not_wave
    else thrown not_riff

abbrev pub channels_of : AlFormat → ℕ
channels_of mono8 = 1
channels_of mono16 = 1
channels_of stereo8 = 2
channels_of stereo16 = 2

abbrev pub bits_of : AlFormat → ℕ
bits_of mono8 = 8
bits_of stereo8 = 8
bits_of mono16 = 16
bits_of stereo16 = 16

-- A wave file as its format describes it: 44 bytes and then the samples.
unfoldable pub wave_file : AlFormat → (rate byte_rate align total size : ℕ) → List ℕ → List ℕ
unfolding to_bytes
wave_file f rate byte_rate align total size samples =
    riff_id
    ++ to_bytes 4 total
    ++ wave_id
    ++ fmt_id
    ++ to_bytes 4 16
    ++ to_bytes 2 1
    ++ to_bytes 2 (channels_of f)
    ++ to_bytes 4 rate
    ++ to_bytes 4 byte_rate
    ++ to_bytes 2 align
    ++ to_bytes 2 (bits_of f)
    ++ data_id
    ++ to_bytes 4 size
    ++ samples

abbrev pub read_as : AlFormat → List ℕ → StreamingWav → ℕ → ℕ → Headers
read_as f samples w rate size =
    loaded (record w { file = samples; pos = 0; len = size; format = f; frequency = rate })

pods :
    (f : AlFormat) (samples : List ℕ) (w : StreamingWav) (rate size : ℕ)
    → rate < 2 ^ 32
    → size < 2 ^ 32
    → read_as f samples w (from_bytes (to_bytes 4 rate)) (from_bytes (to_bytes 4 size))
      ≡ read_as f samples w rate size
pods f samples w rate size h k =
    ap (λ r. read_as f samples w r (from_bytes (to_bytes 4 size))) (from_bytes-to_bytes 4 rate h)
    ∙ ap (read_as f samples w rate) (from_bytes-to_bytes 4 size k)

-- A file of any of the four formats, with a rate and a size of 32 bits, is read as it was written: the
-- format, the rate, the number of bytes, and the samples next in the file.
pub read_headers-wave_file :
    (memory : ℕ → ℕ) (f : AlFormat) (rate byte_rate align total size : ℕ) (samples : List ℕ)
    (w : StreamingWav)
    → rate < 2 ^ 32
    → size < 2 ^ 32
    → read_headers memory (record w { file = wave_file f rate byte_rate align total size samples })
      ≡ read_as f samples w rate size
unfolding read_headers wave_file read_into fresh_bytes field set_format to_bytes from_bytes text_eq
read_headers-wave_file memory mono8 rate byte_rate align total size samples w h k =
    pods mono8 samples w rate size h k
read_headers-wave_file memory stereo8 rate byte_rate align total size samples w h k =
    pods stereo8 samples w rate size h k
read_headers-wave_file memory mono16 rate byte_rate align total size samples w h k =
    pods mono16 samples w rate size h k
read_headers-wave_file memory stereo16 rate byte_rate align total size samples w h k =
    pods stereo16 samples w rate size h k
