-- ===== src/Audio/Player/Shared.antt =====
-- Two streams in the player, which share the static variable of `update`.
use quintses.Common.{
  ℕ, zero, suc, ◌-◌, ◌*◌, ◌^◌, ◌<◌, ◌≤◌, ◌∙◌, ◌≡◌, refl, ap, true, List, [], ◌∷◌, ◌++◌, arith,
}
use quintses.Audio.{StreamingWav, AlCall, update, next_size}
use quintses.Audio.Stream.{
  IsPlaying, after, after-IsPlaying, ready_next_buffer_more, ready_next_buffer_end, next_size-le,
}
use quintses.Audio.Player.Single.{behind, play_rounds_next, play_rounds_none}
use quintses.Audio.Player.{Player, poll, update_streams, play_round, play_rounds}

next_size-full : (n : ℕ) → next_size n ≤ 2 ^ 16
unfolding next_size
next_size-full n = ground arith

abbrev pub both : ℕ → StreamingWav → ℕ → StreamingWav → Player
both j done k w = record { streams = (j, done) ∷ (k, w) ∷ []; previous = true }

module _ (memory : ℕ → ℕ) (j k : ℕ) (done : StreamingWav) (over : IsPlaying done)
    (end : done.len ≡ done.pos) where
  play_round-both :
      (w : StreamingWav) (v : IsPlaying w)
      → w.pos < w.len
      → (calls : List AlCall) × (play_round memory (λ i. true) (both j done k w)
          ≡ (both j done k (after memory w v (next_size (w.len - w.pos))), calls, []))
  unfolding play_round update_streams poll update
  play_round-both w v h = (
    (play_round memory (λ i. true) (both j done k w)).1,
    rw (ready_next_buffer_end memory done over end, ready_next_buffer_more memory w v h) refl,
  )

  -- Behind its last buffer, a stream that stands before a stream with more than `n` buffers to play is
  -- not deleted by any of `n` rounds, however many there are, and the static variable is left true.
  pub play_rounds-keeps :
      (n : ℕ) (w : StreamingWav)
      → IsPlaying w
      → n * 2 ^ 16 < w.len - w.pos
      → (w' : StreamingWav) × (calls : List AlCall) × (play_rounds memory n (both j done k w)
          ≡ (both j done k w', calls, []))
  unfolding behind
  play_rounds-keeps zero w v h = (w, [], play_rounds_none memory (both j done k w))
  play_rounds-keeps (suc n) w v h =
      let size : ℕ = next_size (w.len - w.pos) in
      let next : StreamingWav = after memory w v size in
      let (calls, first) = play_round-both w v (omega arith) in
      let (w', more, rest) =
        play_rounds-keeps n next (after-IsPlaying memory w v size (next_size-le (w.len - w.pos)))
          (omega (arith, next_size-full (w.len - w.pos))) in
      (
        w',
        calls ++ more,
        play_rounds_next memory n (both j done k w) first ∙ ap (behind calls []) rest,
      )
