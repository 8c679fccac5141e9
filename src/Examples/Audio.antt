-- ===== src/Examples/Audio.antt =====
-- A file of three samples.
use quintses.Common.{◌≡◌, [], ◌∷◌, arith}
use quintses.Audio.{StreamingWav, mono8, stereo16}
use quintses.Audio.Headers.{loaded, read_headers, wave_file, read_headers-wave_file}

abbrev wave : StreamingWav
wave = record {
  file = 5 ∷ 6 ∷ 7 ∷ 8 ∷ [];
  pos = 0;
  len = 3;
  next_buffer = 0;
  format = mono8;
  frequency = 44100;
}

read_headers-wave_file_example :
    read_headers
      (λ i. 0)
      (record wave { file = wave_file stereo16 44100 176400 4 40 4 (1 ∷ 2 ∷ 3 ∷ 4 ∷ []) })
    ≡ loaded (record wave {
      file = 1 ∷ 2 ∷ 3 ∷ 4 ∷ [];
      pos = 0;
      len = 4;
      format = stereo16;
      frequency = 44100;
    })
read_headers-wave_file_example =
    read_headers-wave_file (λ i. 0) stereo16 44100 176400 4 40 4 (1 ∷ 2 ∷ 3 ∷ 4 ∷ []) wave
      (omega arith) (omega arith)
