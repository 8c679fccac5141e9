-- ===== src/Physics/Life/Ending.antt =====
-- `BtPhysics::finish`: what is left of the bullet world.
use mathlib.Core.Path.{subst}
use quintses.Common.{ℕ, zero, suc, ◌≡◌, sym, true, List, [], ◌∷◌, inl, inr}
use quintses.Socket.{Result, Result-cases, ok, err}
use quintses.Server.{LocalServer}
use quintses.Lifecycle.{Event, start}
use quintses.Lifecycle.Returns.{is_finished}
use quintses.Lifecycle.Work.{rounds, finish-work}
use quintses.Physics.{init}
use quintses.Physics.Registered.{IsRegistered, init-IsRegistered, count}
use quintses.Physics.Run.{Bullet, Running, round}
use quintses.Physics.Run.Ending.{close_world-IsEmpty}
use quintses.Physics.Run.Kept.{OnOk, IsFresh, round-IsRegistered}
use quintses.Physics.Life.{
  Arrivals, Life, open_world, play_next, live_round, close_all, construct, bt_steps,
}

module _ (b : Bullet) where
  -- No message that comes adds an object under an identifier in use.
  abbrev pub ComeFresh : List Arrivals → Running b → Type 0
  ComeFresh [] r = Unit
  ComeFresh (a ∷ coming) r =
      IsFresh a.messages a.server r.physics
      × OnOk (λ (r', out). ComeFresh coming r')
          (round b a.messages (record r { server = a.server }))

  -- What a thread that has not faulted keeps to.
  abbrev Good : Life b → Type 0
  Good l = IsRegistered l.running.physics × ComeFresh l.coming l.running

  play_next-Good :
      (coming : List Arrivals) (l : Life b)
      → IsRegistered l.running.physics
      → ComeFresh coming l.running
      → OnOk Good (play_next b coming l)
  unfolding play_next
  play_next-Good [] l r fresh =
      let kept = round-IsRegistered b [] l.running r tt in
      elim (Result-cases (round b [] l.running)) [
        | inl (e, k) ↦ rw k tt
        | inr ((r', out), k) ↦ rw k (rw k at kept, tt)
      ]
  play_next-Good (a ∷ coming) l r (new, fresh) =
      let found : Running b = record (l.running) { server = a.server } in
      let kept = round-IsRegistered b a.messages found r new in
      elim (Result-cases (round b a.messages found)) [
        | inl (e, k) ↦ rw k tt
        | inr ((r', out), k) ↦ rw k (rw k at kept, rw k at fresh)
      ]

  live_round-Good : (w : Result (Life b)) → OnOk Good w → OnOk Good (live_round b w)
  unfolding live_round
  live_round-Good (err e) g = tt
  live_round-Good (ok l) (r, fresh) = play_next-Good l.coming l r fresh

  -- Nothing is registered under the identifier.
  abbrev pub IsEmpty : ℕ → Life b → Type 0
  IsEmpty i l =
      (count i l.running.physics.world.bodies ≡ 0)
      × (count i l.running.physics.world.ghosts ≡ 0)
      × (count i l.running.physics.world.actions ≡ 0)

  close_all-IsEmpty : (i : ℕ) (w : Result (Life b)) → OnOk Good w → OnOk (IsEmpty i) (close_all b w)
  unfolding close_all
  close_all-IsEmpty i (err e) g = tt
  close_all-IsEmpty i (ok l) (r, fresh) = close_world-IsEmpty l.running.physics i r

  module _ (s : LocalServer) (sim : b.Simulation) (coming : List Arrivals) where
    abbrev pub newly : Running b
    newly = record { server = s; physics = init; simulation = sim }

    rounds-Good :
        (n : ℕ)
        → ComeFresh coming newly
        → OnOk Good
            (rounds (open_world b) (live_round b) (close_all b) (construct b s sim coming).work n)
    unfolding construct open_world init start
    rounds-Good zero fresh = (init-IsRegistered, fresh)
    rounds-Good (suc n) fresh = live_round-Good _ (rounds-Good n fresh)

    -- In every schedule of the owner and the thread of an engine to which no message comes that adds an
    -- object under an identifier in use: when `finish` has returned, then unless a round has faulted,
    -- nothing is registered with the bullet world any more, neither a body nor a ghost nor an action.
    pub finish-IsEmpty :
        (es : List Event) (i : ℕ)
        → ComeFresh coming newly
        → is_finished (bt_steps b es (construct b s sim coming)).owner ≡ true
        → OnOk (IsEmpty i) (bt_steps b es (construct b s sim coming)).work
    unfolding bt_steps construct
    finish-IsEmpty es i fresh over =
        let (n, e) =
          finish-work (open_world b) (live_round b) (close_all b)
            (ok (record { running = newly; coming = coming; calls = [] })) es over in
        subst (OnOk (IsEmpty i)) (sym e) (close_all-IsEmpty i _ (rounds-Good n fresh))
