-- ===== src/Programs/Session.antt =====
-- The calls of client/localclient.cpp on a server that it knows as core/serveriface.hpp only.
use quintses.Common.{
  ℕ, ◌≡◌, refl, sym, ap, ◌∙◌, Bool, true, false, List, [], ◌∷◌, ◌++◌, All, All-append,
  if◌then◌else◌, either,
}
use mathlib.Core.List.{append_assoc, append-nil}
use quintses.Messages.Server.{ServerMsg, sender, input, load_player}
use quintses.Server.{player}
use quintses.Messages.Client.{
  ClientMsg, add_drawable, trans_drawable, del_drawable, add_audible, trans_audible, del_audible,
}
use quintses.Client.{
  LocalClient, Effect, Round, XEvent, init, mainloop, frame, leave, dispatch, platform_events,
  process_events, sends_all, server_closed, sends, renders, draws, swaps, waits, adds_client,
}
use quintses.Client.Keys.{process_events-self}
use quintses.Network.Contract.{ServerIface}
use quintses.Programs.{play, sent}

-- The first of some messages.
abbrev pub take_one : List ServerMsg → List ServerMsg
take_one [] = []
take_one (m ∷ ms) = m ∷ []

-- The effect is about the client itself.
abbrev pub IsOwn : ℕ → Effect → Type 0
IsOwn self (adds_client c) = c ≡ self
IsOwn self (sends msg) = sender msg ≡ self
IsOwn self e = Unit

module _ (self : ℕ) where
  dispatch-IsOwn : (msgs : List ClientMsg) → All (IsOwn self) (dispatch msgs)
  unfolding dispatch
  dispatch-IsOwn [] = tt
  dispatch-IsOwn (add_drawable id t ∷ msgs) = (tt, dispatch-IsOwn msgs)
  dispatch-IsOwn (trans_drawable id m ∷ msgs) = (tt, dispatch-IsOwn msgs)
  dispatch-IsOwn (del_drawable id ∷ msgs) = (tt, dispatch-IsOwn msgs)
  dispatch-IsOwn (add_audible id t ∷ msgs) = dispatch-IsOwn msgs
  dispatch-IsOwn (trans_audible id m ∷ msgs) = dispatch-IsOwn msgs
  dispatch-IsOwn (del_audible id ∷ msgs) = dispatch-IsOwn msgs

  sends_all-IsOwn :
      (msgs : List ServerMsg) → All (λ m. sender m ≡ self) msgs → All (IsOwn self) (sends_all msgs)
  sends_all-IsOwn [] h = tt
  sends_all-IsOwn (m ∷ msgs) (h, hs) = (h, sends_all-IsOwn msgs hs)

  frame-IsOwn :
      (msgs : List ClientMsg) (es : List XEvent) (c : LocalClient)
      → c.self ≡ self
      → ((frame msgs es c).0.self ≡ self) × All (IsOwn self) (frame msgs es c).1
  unfolding frame platform_events
  frame-IsOwn msgs es c h = (
    process_events-self es false c ∙ h,
    All-append (IsOwn self) (dispatch msgs) _ (dispatch-IsOwn msgs) (
        All-append (IsOwn self) (sends_all (platform_events es c).1) _
          (sends_all-IsOwn (platform_events es c).1 (
            either (All (λ m. sender m ≡ self)) (process_events es false c).1
              (input c.self (process_events es false c).0.keymap ∷ []) [] (h, tt) tt))
          (tt, (tt, tt))),
  )

  leave-IsOwn :
      (is_local : Bool) (c : LocalClient) → c.self ≡ self → All (IsOwn self) (leave is_local c)
  unfolding leave
  leave-IsOwn true c h = (h, (tt, tt))
  leave-IsOwn false c h = (tt, tt)

  mainloop-IsOwn :
      (is_local : Bool) (rounds : List Round) (c : LocalClient)
      → c.self ≡ self
      → All (IsOwn self) (mainloop is_local rounds c).2
  unfolding mainloop server_closed
  mainloop-IsOwn is_local [] c h =
      either (λ (e : Bool × LocalClient × List Effect). All (IsOwn self) e.2) c.finished
        (true, c, leave is_local c) (false, c, []) (leave-IsOwn is_local c h) tt
  mainloop-IsOwn is_local (r ∷ rounds) c h =
      let (same, own) = frame-IsOwn r.messages r.events c h in
      let next : LocalClient =
        if r.closed
        then server_closed (frame r.messages r.events c).0
        else (frame r.messages r.events c).0 in
      let kept : next.self ≡ self =
        either (λ (d : LocalClient). d.self ≡ self) r.closed
          (server_closed (frame r.messages r.events c).0) (frame r.messages r.events c).0 same
          same in
      let more = mainloop is_local rounds next in
      either (λ (e : Bool × LocalClient × List Effect). All (IsOwn self) e.2) c.finished
        (true, c, leave is_local c) (more.0, more.1, (frame r.messages r.events c).1 ++ more.2)
        (leave-IsOwn is_local c h)
        (All-append (IsOwn self) (frame r.messages r.events c).1 more.2 own
          (mainloop-IsOwn is_local rounds next kept))

  play-IsOwn :
      (is_local : Bool) (rounds : List Round) → All (IsOwn self) (play is_local self rounds).1
  unfolding play init
  play-IsOwn is_local rounds = (refl, (refl, mainloop-IsOwn is_local rounds (init self).0 refl))

sent-IsOwn :
    (self : ℕ) (es : List Effect) → All (IsOwn self) es → All (λ m. sender m ≡ self) (sent es)
unfolding sent
sent-IsOwn self [] h = tt
sent-IsOwn self (sends m ∷ es) (h, hs) = (h, sent-IsOwn self es hs)
sent-IsOwn self (renders m ∷ es) (h, hs) = sent-IsOwn self es hs
sent-IsOwn self (draws ∷ es) (h, hs) = sent-IsOwn self es hs
sent-IsOwn self (swaps ∷ es) (h, hs) = sent-IsOwn self es hs
sent-IsOwn self (waits ∷ es) (h, hs) = sent-IsOwn self es hs
sent-IsOwn self (adds_client c ∷ es) (h, hs) = sent-IsOwn self es hs

module _ (i : ServerIface) where
  -- What a call of the client does to its server.
  unfoldable pub act : Effect → i.Server → i.Server
  act (adds_client c) s = i.add_client c s
  act (sends msg) s = i.push_message msg s
  act e s = s

  unfoldable pub acts : List Effect → i.Server → i.Server
  acts [] s = s
  acts (e ∷ es) s = acts es (act e s)

  acts-posted : (es : List Effect) (s : i.Server) → i.posted (acts es s) ≡ i.posted s ++ sent es
  unfolding acts act sent
  acts-posted [] s = sym (append-nil (i.posted s))
  acts-posted (adds_client c ∷ es) s =
      acts-posted es (i.add_client c s) ∙ ap (λ p. p ++ sent es) (i.adds_posted c s)
  acts-posted (sends m ∷ es) s =
      acts-posted es (i.push_message m s)
      ∙ ap (λ p. p ++ sent es) (i.pushes m s)
      ∙ append_assoc (i.posted s) (m ∷ []) (sent es)
  acts-posted (renders m ∷ es) s = acts-posted es s
  acts-posted (draws ∷ es) s = acts-posted es s
  acts-posted (swaps ∷ es) s = acts-posted es s
  acts-posted (waits ∷ es) s = acts-posted es s

  -- A client that is served stays served by its own calls.
  acts-serves :
      (self : ℕ) (es : List Effect) (s : i.Server)
      → All (IsOwn self) es
      → i.serves self s ≡ true
      → i.serves self (acts es s) ≡ true
  unfolding acts act
  acts-serves self [] s own h = h
  acts-serves self (adds_client c ∷ es) s (same, own) h =
      acts-serves self es (i.add_client c s) own
        (sym (ap (λ d. i.serves d (i.add_client c s)) same) ∙ i.adds c s)
  acts-serves self (sends m ∷ es) s (same, own) h =
      acts-serves self es (i.push_message m s) own (i.pushes_serves m self s ∙ h)
  acts-serves self (renders m ∷ es) s (same, own) h = acts-serves self es s own h
  acts-serves self (draws ∷ es) s (same, own) h = acts-serves self es s own h
  acts-serves self (swaps ∷ es) s (same, own) h = acts-serves self es s own h
  acts-serves self (waits ∷ es) s (same, own) h = acts-serves self es s own h

-- Whatever server that keeps the laws of the interface a client plays on, and whatever its rounds
-- find: at the end of its calls the server has been passed every message that the client sent,
-- each once, in order and behind those that were there; each of them names the client as its
-- sender, the first is the one that loads its player; and the server serves the client.
pub session :
    (i : ServerIface) (self : ℕ) (rounds : List Round) (s : i.Server)
    → let calls = (play i.is_local self rounds).1 in
      let after = acts i calls s in
      (i.posted after ≡ i.posted s ++ sent calls)
      × All (λ m. sender m ≡ self) (sent calls)
      × (take_one (sent calls) ≡ load_player self player ∷ [])
      × (i.serves self after ≡ true)
unfolding play init acts act sent
session i self rounds s = (
  acts-posted i (play i.is_local self rounds).1 s,
  sent-IsOwn self (play i.is_local self rounds).1 (play-IsOwn self i.is_local rounds),
  refl,
  acts-serves i self (mainloop i.is_local rounds (init self).0).2
      (i.push_message (load_player self player) (i.add_client self s))
      (mainloop-IsOwn self i.is_local rounds (init self).0 refl)
      (i.pushes_serves (load_player self player) self (i.add_client self s) ∙ i.adds self s),
)
