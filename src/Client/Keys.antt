-- ===== src/Client/Keys.antt =====
-- The keymap is the keys that are held.
use quintses.Common.{
  ℕ, ◌≡◌, refl, ap, ◌∙◌, Bool, true, false, List, [], ◌∷◌, arith, if◌then◌else◌, Bool-cases, inl,
  inr, ◌⊎◌,
}
use quintses.Messages.Server.{input}
use quintses.Server.{strafe_left, strafe_right}
use quintses.Client.{
  Keysym, xk_left, xk_right, space, other_key, XEvent, delete_window, other_event, key_release,
  key_press, LocalClient, has_key, adjust_keysym, process_key, process_events, platform_events,
  shoot,
}

-- The three keys of the game.
pub data GameKey : Type 0 where
  left right fire : GameKey

abbrev pub bit : GameKey → ℕ
bit left = strafe_left
bit right = strafe_right
bit fire = shoot

abbrev pub is_key : GameKey → Keysym → Bool
is_key left xk_left = true
is_key right xk_right = true
is_key fire space = true
is_key k j = false

-- Whether a key is held after some events: as its last press or release says.
unfoldable pub held : GameKey → List XEvent → Bool → Bool
held k [] b = b
held k (key_press j ∷ es) b = held k es (if is_key k j then true else b)
held k (key_release j ∷ es) b = held k es (if is_key k j then false else b)
held k (e ∷ es) b = held k es b

process_key-bit :
    (k : GameKey) (press : Bool) (j : Keysym) (m : ℕ)
    → has_key (bit k) (process_key press j m).0 ≡ (if is_key k j then press else has_key (bit k) m)
unfolding process_key adjust_keysym has_key
process_key-bit left press xk_left m = ground arith
process_key-bit left press xk_right m = ground arith
process_key-bit left press space m = ground arith
process_key-bit left press other_key m = refl
process_key-bit right press xk_left m = ground arith
process_key-bit right press xk_right m = ground arith
process_key-bit right press space m = ground arith
process_key-bit right press other_key m = refl
process_key-bit fire press xk_left m = ground arith
process_key-bit fire press xk_right m = ground arith
process_key-bit fire press space m = ground arith
process_key-bit fire press other_key m = refl

process_events-held :
    (k : GameKey) (es : List XEvent) (changed : Bool) (c : LocalClient)
    → has_key (bit k) (process_events es changed c).0.keymap ≡ held k es (has_key (bit k) c.keymap)
unfolding process_events held
process_events-held k [] changed c = refl
process_events-held k (delete_window ∷ es) changed c =
    process_events-held k es changed (record c { finished = true })
process_events-held k (other_event ∷ es) changed c = process_events-held k es changed c
process_events-held k (key_press j ∷ es) changed c =
    let next : LocalClient = record c { keymap = (process_key true j c.keymap).0 } in
    elim (Bool-cases (process_key true j c.keymap).1) [
      | inl new ↦
          rw (new, process_events)
            (process_events-held k es true next
              ∙ ap (held k es) (process_key-bit k true j c.keymap))
      | inr old ↦
          rw (old, process_events)
            (process_events-held k es changed next
              ∙ ap (held k es) (process_key-bit k true j c.keymap))
    ]
process_events-held k (key_release j ∷ es) changed c =
    let next : LocalClient = record c { keymap = (process_key false j c.keymap).0 } in
    elim (Bool-cases (process_key false j c.keymap).1) [
      | inl new ↦
          rw (new, process_events)
            (process_events-held k es true next
              ∙ ap (held k es) (process_key-bit k false j c.keymap))
      | inr old ↦
          rw (old, process_events)
            (process_events-held k es changed next
              ∙ ap (held k es) (process_key-bit k false j c.keymap))
    ]

-- A key that is no game key leaves the keymap.
process_key_unchanged :
    (press : Bool) (j : Keysym) (m : ℕ)
    → (process_key press j m).1 ≡ false
    → (process_key press j m).0 ≡ m
unfolding process_key
process_key_unchanged press other_key m h = refl
process_key_unchanged press xk_left m h = absurd (ground arith)
process_key_unchanged press xk_right m h = absurd (ground arith)
process_key_unchanged press space m h = absurd (ground arith)

process_events_changed : (es : List XEvent) (c : LocalClient) → (process_events es true c).1 ≡ true
unfolding process_events
process_events_changed [] c = refl
process_events_changed (delete_window ∷ es) c =
    process_events_changed es (record c { finished = true })
process_events_changed (other_event ∷ es) c = process_events_changed es c
process_events_changed (key_press j ∷ es) c =
    ground
      (arith, process_events_changed es (record c { keymap = (process_key true j c.keymap).0 }))
process_events_changed (key_release j ∷ es) c =
    ground
      (arith, process_events_changed es (record c { keymap = (process_key false j c.keymap).0 }))

pub process_events-self :
    (es : List XEvent) (changed : Bool) (c : LocalClient)
    → (process_events es changed c).0.self ≡ c.self
unfolding process_events
process_events-self [] changed c = refl
process_events-self (delete_window ∷ es) changed c =
    process_events-self es changed (record c { finished = true })
process_events-self (other_event ∷ es) changed c = process_events-self es changed c
process_events-self (key_press j ∷ es) changed c =
    let next : LocalClient = record c { keymap = (process_key true j c.keymap).0 } in
    ground (arith, process_events-self es true next, process_events-self es changed next)
process_events-self (key_release j ∷ es) changed c =
    let next : LocalClient = record c { keymap = (process_key false j c.keymap).0 } in
    ground (arith, process_events-self es true next, process_events-self es changed next)

process_events_unchanged :
    (es : List XEvent) (c : LocalClient)
    → (process_events es false c).1 ≡ false
    → (process_events es false c).0.keymap ≡ c.keymap
unfolding process_events
process_events_unchanged [] c h = refl
process_events_unchanged (delete_window ∷ es) c h =
    process_events_unchanged es (record c { finished = true }) h
process_events_unchanged (other_event ∷ es) c h = process_events_unchanged es c h
process_events_unchanged (key_press j ∷ es) c h =
    let next : LocalClient = record c { keymap = (process_key true j c.keymap).0 } in
    ground (
      arith,
      process_events_changed es next,
      process_events_unchanged es next,
      process_key_unchanged true j c.keymap,
    )
process_events_unchanged (key_release j ∷ es) c h =
    let next : LocalClient = record c { keymap = (process_key false j c.keymap).0 } in
    ground (
      arith,
      process_events_changed es next,
      process_events_unchanged es next,
      process_key_unchanged false j c.keymap,
    )

-- After any events each key of the game has its bit set in the keymap if its last press or release was
-- a press, or, with neither, if it was set before; and either one message with the keymap goes to
-- the server, or none and the keymap is what it was.
pub platform_events-held :
    (k : GameKey) (es : List XEvent) (c : LocalClient)
    → let after = (platform_events es c).0 in
      (has_key (bit k) after.keymap ≡ held k es (has_key (bit k) c.keymap))
      × (((platform_events es c).1 ≡ input c.self after.keymap ∷ [])
          ⊎ (((platform_events es c).1 ≡ []) × (after.keymap ≡ c.keymap)))
unfolding platform_events
platform_events-held k es c = (
  process_events-held k es false c,
  elim (Bool-cases (process_events es false c).1) [
    | inl changed ↦ rw (changed, platform_events) (inl refl)
    | inr same ↦ rw (same, platform_events) (inr (refl, process_events_unchanged es c same))
  ],
)
