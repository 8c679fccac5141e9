-- ===== src/Audio/Stream.antt =====
-- What the buffers hold, one after another.
use native.Mathlib.Numerals.{unary_clauses}
use quintses.Common.{
  ℕ, zero, suc, ◌+◌, ◌-◌, ◌*◌, ◌%◌, ◌^◌, ◌≤◌, ◌<◌, ◌≡◌, refl, sym, ap, ◌∙◌, true, false, List, [],
  ◌∷◌, ◌++◌, arith, length, take, drop, ◌==◌, ==_ne, ==_iff, Bool-cases, inl, inr,
}
use quintses.Audio.{
  StreamingWav, AlCall, buffer_data, fresh_bytes, read_into, toggle, fill_next_buffer, next_size,
  ready_next_buffer,
}

-- The samples that the calls hand to OpenAL, in order.
unfoldable pub samples : List AlCall → List ℕ
samples [] = []
samples (buffer_data b f bytes hz ∷ calls) = bytes ++ samples calls
samples (c ∷ calls) = samples calls

-- The calls of some rounds of `readyNextBuffer`.
unfoldable pub ready_times : ℕ → (ℕ → ℕ) → StreamingWav → StreamingWav × List AlCall
ready_times zero memory w = (w, [])
ready_times (suc n) memory w =
    let (_, next, calls) = ready_next_buffer memory w in
    let (final, more) = ready_times n memory next in (final, calls ++ more)

-- The header announces `len` bytes, as many as the file holds, and `pos` of them have been read.
pub record IsPlaying (w : StreamingWav) : Type 0 where
  pub position : w.pos ≤ w.len
  pub size : w.len < 2 ^ 64
  pub rest : w.len - w.pos ≤ length w.file

read_into-take :
    (memory : ℕ → ℕ) (n : ℕ) (file : List ℕ)
    → n ≤ length file
    → read_into (fresh_bytes memory n) file ≡ (take n file, drop n file)
unfolding read_into fresh_bytes
read_into-take memory zero file h = refl
read_into-take memory (suc n) [] h = absurd (omega arith)
read_into-take memory (suc n) (b ∷ file) h = rw (read_into-take memory n file (omega arith)) refl

length-drop {ℓ} : {A : Type ℓ} (n : ℕ) (xs : List A) → length (drop n xs) ≡ length xs - n
length-drop zero xs = omega arith
length-drop (suc n) [] = omega arith
length-drop (suc n) (x ∷ xs) = omega (arith, length-drop n xs)

pub take-drop {ℓ} :
    {A : Type ℓ} (n k : ℕ) (xs : List A) → take n xs ++ take k (drop n xs) ≡ take (n + k) xs
take-drop zero k xs = ap (λ n. take n xs) (omega arith)
take-drop (suc n) zero [] = simp unary_clauses refl
take-drop (suc n) (suc k) [] = simp unary_clauses refl
take-drop (suc n) k (x ∷ xs) =
    let shift : suc (n + k) ≡ suc n + k = omega arith in
    ap (λ l. x ∷ l) (take-drop n k xs) ∙ ap (λ j. take j (x ∷ xs)) shift

pub next_size-le : (n : ℕ) → next_size n ≤ n
unfolding next_size
next_size-le n = ground arith

module _ (memory : ℕ → ℕ) (w : StreamingWav) (v : IsPlaying w) where
  -- The state after a buffer of `k` bytes.
  abbrev pub after : ℕ → StreamingWav
  after k = record w { pos = w.pos + k; file = drop k w.file; next_buffer = toggle w.next_buffer }

  remaining_lem : (w.len + (2 ^ 64 - w.pos)) % 2 ^ 64 ≡ w.len - w.pos
  remaining_lem = omega (arith, v.position, v.size)

  pub ready_next_buffer_end : w.len ≡ w.pos → ready_next_buffer memory w ≡ (false, w, [])
  unfolding ready_next_buffer
  ready_next_buffer_end h = rw (remaining_lem, ready_next_buffer) (ground arith)

  pub ready_next_buffer_more :
      w.pos < w.len
      → ready_next_buffer memory w ≡ (
        true,
        after (next_size (w.len - w.pos)),
        buffer_data w.next_buffer w.format (take (next_size (w.len - w.pos)) w.file) w.frequency
            ∷ [],
      )
  unfolding ready_next_buffer fill_next_buffer
  ready_next_buffer_more h =
      let size : ℕ = next_size (w.len - w.pos) in
      let fits : size ≤ w.len - w.pos = next_size-le (w.len - w.pos) in
      let small : (w.pos + size) % 2 ^ 64 ≡ w.pos + size = omega (arith, v.position, v.size) in
      rw
        (
          remaining_lem,
          ==_ne (w.len - w.pos) 0 (omega arith),
          read_into-take memory size w.file (omega (arith, v.rest)),
          small,
        )
        refl

  pub after-IsPlaying : (k : ℕ) → k ≤ w.len - w.pos → IsPlaying (after k)
  after-IsPlaying k h = record {
    position = omega (arith, v.position);
    size = v.size;
    rest = omega (arith, v.rest, length-drop k w.file);
  }

pub next_size-left : (n k : ℕ) → k ≤ suc n * 2 ^ 16 → k - next_size k ≤ n * 2 ^ 16
unfolding next_size
next_size-left n k h = ground arith

-- While a wave file holds the bytes that its header announces, so many rounds of `readyNextBuffer` as the
-- bytes that are left fill buffers hand exactly these bytes to OpenAL, in order, and bring the
-- position to the end, where the next round returns false and does nothing.
pub ready_times-samples :
    (n : ℕ) (memory : ℕ → ℕ) (w : StreamingWav)
    → IsPlaying w
    → w.len - w.pos ≤ n * 2 ^ 16
    → (samples (ready_times n memory w).1 ≡ take (w.len - w.pos) w.file)
      × ((ready_times n memory w).0.pos ≡ w.len)
      × (ready_next_buffer memory (ready_times n memory w).0
          ≡ (false, (ready_times n memory w).0, []))
unfolding samples ready_times
ready_times-samples zero memory w v h =
    let done : w.len ≡ w.pos = omega (arith, v.position) in
    let none_left : 0 ≡ w.len - w.pos = omega arith in
    (ap (λ k. take k w.file) none_left, sym done, ready_next_buffer_end memory w v done)
ready_times-samples (suc n) memory w v h = elim (Bool-cases (w.len == w.pos)) [
  | inl done ↦
      let stopped : w.len ≡ w.pos = (==_iff w.len w.pos).0 done in
      rw (ready_next_buffer_end memory w v stopped) (ready_times-samples n memory w v (omega arith))
  | inr more ↦
      let below : w.pos < w.len = ground (arith, v.position) in
      let size : ℕ = next_size (w.len - w.pos) in
      let fits : size ≤ w.len - w.pos = next_size-le (w.len - w.pos) in
      let all : size + (w.len - (w.pos + size)) ≡ w.len - w.pos = omega arith in
      let (ih, end, stop) =
        ready_times-samples n memory (after memory w v size) (after-IsPlaying memory w v size fits)
          (omega (arith, next_size-left n (w.len - w.pos) h)) in
      rw (ready_next_buffer_more memory w v below) (
        ap (λ l. take size w.file ++ l) ih
            ∙ take-drop size (w.len - (w.pos + size)) w.file
            ∙ ap (λ k. take k w.file) all,
        end,
        stop,
      )
]
