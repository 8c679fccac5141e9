-- ===== src/PhysicsIface.antt =====
-- core/physicsiface.hpp as server/bullet/btphysics.cpp implements it: each call becomes a message on
-- the queue of the physics thread.
use quintses.Common.{ℕ, Bool, if◌then◌else◌}
use quintses.Messages.Server.{
  ServerMsg, Matrix, Text, add_phys, add_char, del_phys, del_char, force_state,
}

-- `BtPhysics::addPhysical`: the message that it pushes.
unfoldable pub add_physical : ℕ → Text → Matrix → Bool → ServerMsg
add_physical id tmp mat is_character =
    if is_character then add_char id tmp mat else add_phys id tmp mat

-- `BtPhysics::delPhysical`
unfoldable pub del_physical : ℕ → Bool → ServerMsg
del_physical id is_character = if is_character then del_char id else del_phys id

-- `BtPhysics::setInputState`
unfoldable pub set_input_state : ℕ → ℕ → ServerMsg
set_input_state id state = force_state id state
