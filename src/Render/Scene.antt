-- ===== src/Render/Scene.antt =====
-- The scene that a sequence of messages builds, one object at a time.
use quintses.Common.{
  ℕ, ◌≡◌, refl, ap, ◌∙◌, Bool, false, ◌||◌, Option, none, some, List, [], ◌∷◌, ◌++◌, arith, ◌==◌,
  if◌then◌else◌, is_some, Option-cases, inl, inr,
}
use quintses.Common.Map.{Map, has, lookup, lookup-assign, lookup-insert, lookup-erase}
use quintses.Messages.Server.{Matrix}
use quintses.Messages.Client.{
  ClientMsg, add_drawable, add_audible, trans_drawable, trans_audible, del_drawable, del_audible,
}
use quintses.Server.{LocalServer, BaddieData, player, add_client}
use quintses.Server.Delivery.{sent_to, player_msgs, baddie_msgs, add_client-delivery}
use quintses.Server.Identifiers.{is_baddie}
use quintses.Render.{GlDrawable, template_color, push_message}

unfoldable pub push_all : Matrix → List ClientMsg → Map GlDrawable → Map GlDrawable
push_all garbage [] scene = scene
push_all garbage (msg ∷ msgs) scene = push_all garbage msgs (push_message garbage msg scene)

-- What one message does to the drawable of object `id`.
unfoldable pub track : Matrix → ℕ → ClientMsg → Option GlDrawable → Option GlDrawable
track garbage id (add_drawable i t) none =
    if i == id then some (record { color = template_color t; matrix = garbage }) else none
track garbage id (trans_drawable i m) (some d) =
    some (if i == id then record d { matrix = m } else d)
track garbage id (del_drawable i) d = if i == id then none else d
track garbage id msg d = d

unfoldable pub track_all : Matrix → ℕ → List ClientMsg → Option GlDrawable → Option GlDrawable
track_all garbage id [] d = d
track_all garbage id (msg ∷ msgs) d = track_all garbage id msgs (track garbage id msg d)

push_message-track :
    (garbage : Matrix) (id : ℕ) (msg : ClientMsg) (scene : Map GlDrawable)
    → lookup id (push_message garbage msg scene) ≡ track garbage id msg (lookup id scene)
unfolding push_message track
push_message-track garbage id (add_drawable i t) scene = elim (Option-cases (lookup i scene)) [
  | inl free ↦
      rw (free, push_message)
        (ground
          (arith, lookup-insert i (record { color = template_color t; matrix = garbage }) id scene))
  | inr (d, found) ↦ rw (found, push_message) (ground arith)
]
push_message-track garbage id (trans_drawable i m) scene = elim (Option-cases (lookup i scene)) [
  | inl free ↦ rw (free, push_message) (ground arith)
  | inr (d, found) ↦
      rw (found, push_message) (ground (arith, lookup-assign i (record d { matrix = m }) id scene))
]
push_message-track garbage id (del_drawable i) scene = ground (arith, lookup-erase i id scene)
push_message-track garbage id (add_audible i t) scene = refl
push_message-track garbage id (trans_audible i m) scene = refl
push_message-track garbage id (del_audible i) scene = refl

-- After any messages the renderer shows of each object what the messages about that object alone make
-- of it: a second addition and a transform of a missing object change nothing.
pub push_all-track :
    (garbage : Matrix) (id : ℕ) (msgs : List ClientMsg) (scene : Map GlDrawable)
    → lookup id (push_all garbage msgs scene) ≡ track_all garbage id msgs (lookup id scene)
unfolding push_all track_all
push_all-track garbage id [] scene = refl
push_all-track garbage id (msg ∷ msgs) scene =
    push_all-track garbage id msgs (push_message garbage msg scene)
    ∙ rw (push_message-track garbage id msg scene) refl

abbrev pub is_player : ℕ → Map ℕ → Bool
is_player id [] = false
is_player id ((c, i) ∷ m) = i == id || is_player id m

track_all-baddies :
    (garbage : Matrix) (id : ℕ) (bs : List BaddieData) (d : Option GlDrawable)
    → is_some (track_all garbage id (baddie_msgs bs) d) ≡ (is_some d || is_baddie id bs)
unfolding track_all track baddie_msgs
track_all-baddies garbage id [] none = refl
track_all-baddies garbage id [] (some d) = refl
track_all-baddies garbage id (b ∷ bs) none = ground (
  arith,
  track_all-baddies garbage id bs none,
  track_all-baddies garbage id bs
      (some (record { color = template_color b.templ; matrix = garbage })),
)
track_all-baddies garbage id (b ∷ bs) (some d) = track_all-baddies garbage id bs (some d)

track_all-players :
    (garbage : Matrix) (id : ℕ) (m : Map ℕ) (bs : List BaddieData) (d : Option GlDrawable)
    → is_some (track_all garbage id (player_msgs m ++ baddie_msgs bs) d)
      ≡ (is_some d || (is_player id m || is_baddie id bs))
unfolding track_all track player_msgs
track_all-players garbage id [] bs d = track_all-baddies garbage id bs d
track_all-players garbage id ((c, i) ∷ m) bs none = ground (
  arith,
  track_all-players garbage id m bs none,
  track_all-players garbage id m bs
      (some (record { color = template_color player; matrix = garbage })),
)
track_all-players garbage id ((c, i) ∷ m) bs (some d) = track_all-players garbage id m bs (some d)

-- The messages that `addClient` sends to a new client give its empty scene a drawable for exactly the
-- identifiers of the players and of the baddies.
pub add_client-scene :
    (garbage : Matrix) (c id : ℕ) (s : LocalServer)
    → has id (push_all garbage (sent_to c (add_client c s).1) [])
      ≡ (is_player id s.clients || is_baddie id s.baddies)
unfolding lookup
add_client-scene garbage c id s =
    ap is_some (push_all-track garbage id (sent_to c (add_client c s).1) [])
    ∙ ap (λ msgs. is_some (track_all garbage id msgs none)) (add_client-delivery c c s ∙ if_same)
    ∙ track_all-players garbage id s.clients s.baddies none
  where
    if_same :
        (if c == c then player_msgs s.clients ++ baddie_msgs s.baddies else [])
        ≡ player_msgs s.clients ++ baddie_msgs s.baddies
    if_same = ground arith
