-- ===== src/Lifecycle/Work.antt =====
-- What has been done to the thread's work when `finish` returns.
use quintses.Common.{
  ℕ, zero, suc, ◌≤◌, ◌≡◌, refl, ap, true, List, [], ◌∷◌, arith, Bool-cases, inl, inr,
}
use quintses.Lifecycle.{
  Thread, Worker, Event, start, step, steps, owner_step, thread_step, starting, initialized,
  announcing, constructing, waiting_start, built, finishing, waiting_end, finished, looping,
  leaving, closed, quitting, ended, of_owner, of_thread, spurious,
}
use quintses.Lifecycle.Progress.{Inv, reached-Inv, rank}
use quintses.Lifecycle.Returns.{is_finished}

module _ {ℓ} {W : Type ℓ} (initialize body finalize : W → W) (w : W) where
  -- `n` rounds of the loop.
  abbrev pub rounds : ℕ → W
  rounds zero = initialize w
  rounds (suc n) = body (rounds n)

  -- The work, by where the thread stands.
  abbrev Done : Thread → W → Type ℓ
  Done starting now = now ≡ w
  Done initialized now = (n : ℕ) × (now ≡ rounds n)
  Done announcing now = (n : ℕ) × (now ≡ rounds n)
  Done looping now = (n : ℕ) × (now ≡ rounds n)
  Done leaving now = (n : ℕ) × (now ≡ rounds n)
  Done t now = (n : ℕ) × (now ≡ finalize (rounds n))

  move-Done :
      (t : Thread) (s : Worker W)
      → Done t s.work
      → Done
          (thread_step initialize body finalize t s).thread
          (thread_step initialize body finalize t s).work
  unfolding thread_step
  move-Done starting s h = (0, ap initialize h)
  move-Done initialized s h = h
  move-Done announcing s h = h
  move-Done looping s (n, h) = elim (Bool-cases s.finish) [
    | inl told ↦ rw told (n, h)
    | inr early ↦ rw early (suc n, ap body h)
  ]
  move-Done leaving s (n, h) = (n, ap finalize h)
  move-Done closed s h = h
  move-Done quitting s h = h
  move-Done ended s h = h

  step-Done :
      (e : Event) (s : Worker W)
      → Done s.thread s.work
      → Done (step initialize body finalize e s).thread (step initialize body finalize e s).work
  unfolding step owner_step
  step-Done of_owner s h =
      elim s.owner as (λ o. Done (owner_step o s).thread (owner_step o s).work) [
        | constructing ↦ h
        | waiting_start ↦ h
        | built ↦ h
        | finishing ↦ h
        | waiting_end ↦ h
        | finished ↦ h
      ]
  step-Done of_thread s h = move-Done s.thread s h
  step-Done spurious s h = h

  steps-Done :
      (es : List Event) (s : Worker W)
      → Done s.thread s.work
      → Done (steps initialize body finalize es s).thread (steps initialize body finalize es s).work
  unfolding steps
  steps-Done [] s h = h
  steps-Done (e ∷ es) s h = steps-Done es (step initialize body finalize e s) (step-Done e s h)

  closed-Done :
      (t : Thread) (now : W) → rank t ≤ 1 → Done t now → (n : ℕ) × (now ≡ finalize (rounds n))
  closed-Done quitting now h d = d
  closed-Done ended now h d = d
  closed-Done starting now h d = absurd (omega arith)
  closed-Done initialized now h d = absurd (omega arith)
  closed-Done announcing now h d = absurd (omega arith)
  closed-Done looping now h d = absurd (omega arith)
  closed-Done leaving now h d = absurd (omega arith)
  closed-Done closed now h d = absurd (omega arith)

  finished-rank : (s : Worker W) → Inv s → is_finished s.owner ≡ true → rank s.thread ≤ 1
  finished-rank s inv h = ground (arith, inv.fits)

  -- In every schedule, when `finish` has returned, what the thread works on has been initialized,
  -- has then been through a number of whole rounds of the loop, and has last been finalized, once.
  pub finish-work :
      (es : List Event)
      → is_finished (steps initialize body finalize es (start w)).owner ≡ true
      → (n : ℕ) × ((steps initialize body finalize es (start w)).work ≡ finalize (rounds n))
  unfolding start
  finish-work es h =
      let s = steps initialize body finalize es (start w) in
      closed-Done s.thread s.work (finished-rank s (reached-Inv initialize body finalize es w) h)
        (steps-Done es (start w) refl)
