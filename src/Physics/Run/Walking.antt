-- ===== src/Physics/Run/Walking.antt =====
-- `updateCharacterObjects`: which flags of the input state move a character.
use quintses.Common.{ℕ, ◌≡◌, refl, false, if◌then◌else◌, arith, Bool-cases, inl, inr}
use quintses.Server.{strafe_left, strafe_right}
use quintses.Physics.{CharacterObject}
use quintses.Physics.Run.{
  Bullet, has_flag, walk_forward, walk_reverse, turn_left, turn_right, jump_flag, direction, turn,
  update_character,
}

-- What floats promise of the four additions to a direction, for an axis of ordinary numbers: `0 - a + a`
-- and `0 + a - a` are 0.
pub record IsFloat (b : Bullet) : Type 0 where
  pub back : (a : b.Vector) → b.plus (b.minus b.nought a) a ≡ b.nought
  pub forth : (a : b.Vector) → b.minus (b.plus b.nought a) a ≡ b.nought

module _ (b : Bullet) (float : IsFloat b) where
  open b use {nought, plus, minus}
  open float use {back, forth}

  direction_cancels :
      (state : ℕ) (across ahead : b.Vector)
      → has_flag strafe_left state ≡ has_flag strafe_right state
      → has_flag walk_forward state ≡ has_flag walk_reverse state
      → direction b state across ahead ≡ nought
  unfolding direction
  direction_cancels state across ahead sides ends = ground (arith, back across, forth ahead)

  -- Where `0 - a + a` and `0 + a - a` are 0, a character whose input holds both or neither of the two
  -- strafe flags and of the two walk flags, and no flag to turn or jump, keeps its transform and is
  -- stopped if it is on the ground; in the air it is left alone.
  pub update_character-stops :
      (id : ℕ) (c : CharacterObject) (sim : b.Simulation)
      → has_flag strafe_left c.state ≡ has_flag strafe_right c.state
      → has_flag walk_forward c.state ≡ has_flag walk_reverse c.state
      → has_flag turn_left c.state ≡ false
      → has_flag turn_right c.state ≡ false
      → has_flag jump_flag c.state ≡ false
      → update_character b id c sim
        ≡ (c, if b.can_jump id sim then b.set_walk_direction id (b.at_speed nought) sim else sim)
  unfolding update_character turn
  update_character-stops id c sim sides ends left right stays =
      rw
        (
          direction_cancels c.state (b.side c.transform) (b.forward c.transform) sides ends,
          left,
          right,
          stays,
        )
        (elim (Bool-cases (b.can_jump id sim)) [ inl h ↦ rw h refl | inr h ↦ rw h refl ])
