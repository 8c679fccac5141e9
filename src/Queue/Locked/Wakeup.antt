-- ===== src/Queue/Locked/Wakeup.antt =====
-- The locked queue is first in, first out, and its consumer never sleeps through a push.
use mathlib.Core.List.{append_assoc}
use quintses.Common.{
  ℕ, suc, ◌-◌, ◌<◌, ◌≡◌, refl, sym, ap, ◌∙◌, false, some, List, [], ◌∷◌, ◌++◌, arith,
}
use quintses.Queue.Locked.{
  Monitor, Step, Reach, checking, waiting, is_empty, push, try_pop, take, pushes, notifies, enters,
  sleeps, wakes, returns, tries, start, later, wake,
}

module _ {ℓ} {A : Type ℓ} where
  -- While the consumer sleeps and the deque is not empty, a notification is still due.
  pub record Inv (s : Monitor A) : Type ℓ where
    pub awake : s.consumer ≡ waiting → is_empty s.queue ≡ false → 0 < s.due
    pub order : s.got ++ s.queue ≡ s.sent

  take-order :
      (s : Monitor A) (v : A) → (try_pop s.queue).0 ≡ some v → s.queue ≡ v ∷ (try_pop s.queue).1
  unfolding try_pop
  take-order s v e = take_front s.queue v e
    where
      take_front : (q : List A) (w : A) → (try_pop q).0 ≡ some w → q ≡ w ∷ (try_pop q).1
      take_front [] w h = cc
      take_front (x ∷ q) w h = ground arith

  take-Inv : (s : Monitor A) (v : A) → (try_pop s.queue).0 ≡ some v → Inv s → Inv (take s v)
  take-Inv s v e inv = record {
    awake = λ h. cc;
    order = append_assoc s.got (v ∷ []) (try_pop s.queue).1 ∙ rw (← take-order s v e) inv.order;
  }

  Step-Inv : {s t : Monitor A} → Step s t → Inv s → Inv t
  unfolding push
  Step-Inv (pushes s v) inv = record {
    awake = λ h e. ground (arith, inv.awake);
    order = sym (append_assoc s.got s.queue (v ∷ [])) ∙ ap (λ l. l ++ v ∷ []) inv.order;
  }
  Step-Inv (notifies s n e) inv = record { awake = λ h f. ground arith; order = inv.order }
  Step-Inv (enters s e) inv = record { awake = λ h f. cc; order = inv.order }
  Step-Inv (sleeps s e q) inv = record { awake = λ h f. cc; order = inv.order }
  Step-Inv (wakes s e) inv = record { awake = λ h f. cc; order = inv.order }
  Step-Inv (returns s v e q) inv = take-Inv s v q inv
  Step-Inv (tries s v e q) inv = take-Inv s v q inv

  pub Reach-Inv : {s : Monitor A} → Reach s → Inv s
  Reach-Inv start = record { awake = λ h f. cc; order = refl }
  Reach-Inv (later r st) = Step-Inv st (Reach-Inv r)

  -- What has been popped, followed by what the deque holds, is what has been pushed, in order.
  pub fifo : {s : Monitor A} → Reach s → s.got ++ s.queue ≡ s.sent
  fifo r = (Reach-Inv r).order

  -- A consumer that sleeps while values wait is woken by a notification that is still due, and its
  -- next step returns the oldest value.
  pub no_lost_wakeup :
      {s : Monitor A} (v : A) (rest : List A)
      → Reach s
      → s.consumer ≡ waiting
      → s.queue ≡ v ∷ rest
      → (n : ℕ) × (s.due ≡ suc n)
        × (t u : Monitor A) × (t ≡ record s { due = n; consumer = checking })
        × Step s t
        × Step t u
        × (u.got ≡ s.got ++ v ∷ [])
        × (u.queue ≡ rest)
  unfolding try_pop
  no_lost_wakeup {s} v rest r asleep q =
      let n : ℕ = s.due - 1 in
      let due : s.due ≡ suc n = ground (arith, (Reach-Inv r).awake) in
      let t : Monitor A = record s { due = n; consumer = wake s.consumer } in
      (
        n,
        due,
        t,
        take t v,
        ground arith,
        notifies s n due,
        returns t v (ground arith) (ground arith),
        refl,
        ground arith,
      )
