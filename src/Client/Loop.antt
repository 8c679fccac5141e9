-- ===== src/Client/Loop.antt =====
-- How `mainloop` ends.
use mathlib.Core.List.{append_assoc}
use quintses.Common.{
  ℕ, ◌+◌, ◌≡◌, refl, Bool, true, false, ◌&&◌, List, [], ◌∷◌, ◌++◌, arith, if◌then◌else◌, Bool-cases,
  inl, inr,
}
use quintses.Messages.Server.{shutdown}
use quintses.Messages.Client.{
  ClientMsg, add_drawable, add_audible, trans_drawable, trans_audible, del_drawable, del_audible,
}
use quintses.Client.{
  LocalClient, XEvent, Effect, waits, sends, Round, dispatch, platform_events, frame, leave,
  server_closed, mainloop,
}

-- The shutdown messages among the calls, and the calls of `waitForTermination`.
unfoldable pub shutdowns : List Effect → ℕ
shutdowns [] = 0
shutdowns (sends (shutdown c) ∷ es) = 1 + shutdowns es
shutdowns (e ∷ es) = shutdowns es

unfoldable pub waitings : List Effect → ℕ
waitings [] = 0
waitings (waits ∷ es) = 1 + waitings es
waitings (e ∷ es) = waitings es

shutdowns-dispatch :
    (msgs : List ClientMsg) (es : List Effect) → shutdowns (dispatch msgs ++ es) ≡ shutdowns es
unfolding shutdowns dispatch
shutdowns-dispatch [] es = refl
shutdowns-dispatch (add_drawable i t ∷ msgs) es = shutdowns-dispatch msgs es
shutdowns-dispatch (trans_drawable i m ∷ msgs) es = shutdowns-dispatch msgs es
shutdowns-dispatch (del_drawable i ∷ msgs) es = shutdowns-dispatch msgs es
shutdowns-dispatch (add_audible i t ∷ msgs) es = shutdowns-dispatch msgs es
shutdowns-dispatch (trans_audible i m ∷ msgs) es = shutdowns-dispatch msgs es
shutdowns-dispatch (del_audible i ∷ msgs) es = shutdowns-dispatch msgs es

waitings-dispatch :
    (msgs : List ClientMsg) (es : List Effect) → waitings (dispatch msgs ++ es) ≡ waitings es
unfolding waitings dispatch
waitings-dispatch [] es = refl
waitings-dispatch (add_drawable i t ∷ msgs) es = waitings-dispatch msgs es
waitings-dispatch (trans_drawable i m ∷ msgs) es = waitings-dispatch msgs es
waitings-dispatch (del_drawable i ∷ msgs) es = waitings-dispatch msgs es
waitings-dispatch (add_audible i t ∷ msgs) es = waitings-dispatch msgs es
waitings-dispatch (trans_audible i m ∷ msgs) es = waitings-dispatch msgs es
waitings-dispatch (del_audible i ∷ msgs) es = waitings-dispatch msgs es

append_nested : (xs ys zs : List Effect) → (xs ++ ys) ++ zs ≡ xs ++ (ys ++ zs)
append_nested xs ys zs = append_assoc xs ys zs

-- A frame sends no shutdown message and waits for nothing, whatever follows it.
pub shutdowns-frame :
    (msgs : List ClientMsg) (es : List XEvent) (c : LocalClient) (more : List Effect)
    → shutdowns ((frame msgs es c).1 ++ more) ≡ shutdowns more
unfolding frame shutdowns platform_events
shutdowns-frame msgs es c more =
    rw (append_nested (dispatch msgs) _ more, shutdowns-dispatch msgs _) (ground arith)

pub waitings-frame :
    (msgs : List ClientMsg) (es : List XEvent) (c : LocalClient) (more : List Effect)
    → waitings ((frame msgs es c).1 ++ more) ≡ waitings more
unfolding frame waitings platform_events
waitings-frame msgs es c more =
    rw (append_nested (dispatch msgs) _ more, waitings-dispatch msgs _) (ground arith)

pub shutdowns-leave :
    (is_local : Bool) (c : LocalClient) → shutdowns (leave is_local c) ≡ (if is_local then 1 else 0)
unfolding shutdowns leave
shutdowns-leave true c = omega arith
shutdowns-leave false c = refl

pub waitings-leave : (is_local : Bool) (c : LocalClient) → waitings (leave is_local c) ≡ 1
unfolding waitings leave
waitings-leave true c = omega arith
waitings-leave false c = omega arith

-- Over any rounds, a local server is told once to shut down if `mainloop` returns, and a remote server
-- never is; the end of the server is waited for once if `mainloop` returns, and never before.
pub mainloop-shutdowns :
    (is_local : Bool) (rounds : List Round) (c : LocalClient)
    → (shutdowns (mainloop is_local rounds c).2
        ≡ (if (mainloop is_local rounds c).0 && is_local then 1 else 0))
      × (waitings (mainloop is_local rounds c).2
          ≡ (if (mainloop is_local rounds c).0 then 1 else 0))
unfolding mainloop shutdowns waitings
mainloop-shutdowns is_local [] c = elim (Bool-cases c.finished) [
  | inl finished ↦
      rw (finished, mainloop)
        (ground (arith, shutdowns-leave is_local c, waitings-leave is_local c))
  | inr open_still ↦ rw (open_still, mainloop) (ground arith)
]
mainloop-shutdowns is_local (r ∷ rounds) c =
    let next : LocalClient =
      if r.closed
      then server_closed (frame r.messages r.events c).0
      else (frame r.messages r.events c).0 in
    let more : List Effect = (mainloop is_local rounds next).2 in
    ground (
      arith,
      shutdowns-leave is_local c,
      waitings-leave is_local c,
      shutdowns-frame r.messages r.events c more,
      waitings-frame r.messages r.events c more,
      mainloop-shutdowns is_local rounds next,
    )

ended-finished :
    (is_local : Bool) (rounds : List Round) (c : LocalClient)
    → c.finished ≡ true
    → (mainloop is_local rounds c).0 ≡ true
unfolding mainloop
ended-finished is_local [] c h = rw (h, mainloop) refl
ended-finished is_local (r ∷ rounds) c h = rw (h, mainloop) refl

-- If another thread calls `serverClosed` in some round, `mainloop` returns, whatever the rounds find.
pub mainloop-closed :
    (is_local : Bool) (before : List Round) (r : Round) (after : List Round) (c : LocalClient)
    → r.closed ≡ true
    → (mainloop is_local (before ++ r ∷ after) c).0 ≡ true
unfolding mainloop server_closed
mainloop-closed is_local [] r after c h = elim (Bool-cases c.finished) [
  | inl finished ↦ rw (finished, mainloop) refl
  | inr open_still ↦ rw (open_still, mainloop, h) (ended-finished is_local after _ refl)
]
mainloop-closed is_local (b ∷ before) r after c h = elim (Bool-cases c.finished) [
  | inl finished ↦ rw (finished, mainloop) refl
  | inr open_still ↦ rw (open_still, mainloop) (mainloop-closed is_local before r after _ h)
]
