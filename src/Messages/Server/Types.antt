-- ===== src/Messages/Server/Types.antt =====
-- The type numbers of the messages to the server, and what the factory makes of them.
use quintses.Common.{ℕ, ◌<◌, ◌≡◌, sym, ◌∙◌, some, arith}
use quintses.Messages.Server.{
  ServerMsg, shutdown, input, load_player, add_phys, add_char, del_phys, del_char, force_state,
  type, sender, create, subsystem_internal_start,
}

-- Both messages are of one class.
abbrev pub IsSameClass : ServerMsg → ServerMsg → Type 0
IsSameClass (shutdown c) (shutdown d) = Unit
IsSameClass (input c st) (input d su) = Unit
IsSameClass (load_player c t) (load_player d u) = Unit
IsSameClass (add_phys i t m) (add_phys j u n) = Unit
IsSameClass (add_char i t m) (add_char j u n) = Unit
IsSameClass (del_phys i) (del_phys j) = Unit
IsSameClass (del_char i) (del_char j) = Unit
IsSameClass (force_state i st) (force_state j su) = Unit
IsSameClass a b = ⊥

type-IsSameClass : (a b : ServerMsg) → type a ≡ type b → IsSameClass a b
unfolding type
type-IsSameClass a b h = ground arith

-- If the factory makes a message, it is of the type that it was asked for and from the client that
-- it was given; it is of the class of every message of that type, so that a `static_cast` that
-- follows a test of the type is sound; and it is none of the messages that the subsystems use among
-- themselves.
pub create-type :
    (garbage t cli : ℕ) (msg other : ServerMsg)
    → create garbage t cli ≡ some msg
    → type other ≡ t
    → (type msg ≡ t)
      × (sender msg ≡ cli)
      × IsSameClass other msg
      × (type msg < subsystem_internal_start)
unfolding create type
create-type garbage t cli msg other h k =
    let made : type msg ≡ t = ground (arith, h) in
    (made, ground (arith, h), type-IsSameClass other msg (k ∙ sym made), ground (arith, h))
