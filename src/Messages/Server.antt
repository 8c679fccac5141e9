-- ===== src/Messages/Server.antt =====
-- core/messages/server, and the internal messages that server/bullet/btphysics.cpp derives from
-- `ServerMsg`. A sender is the address of a `ClientIface`; 0 is the null pointer.
pub mod Wire
pub mod Types
use quintses.Common.{ℕ, ◌^◌, ◌+◌, Option, none, some, List, [], ◌==◌, if◌then◌else◌}
use quintses.Socket.{Io, SocketWrapper, pure, ◌>>=◌, read_pod, write_pod, read_string, write_string}

-- `float[16]`, as the 64 bytes that it occupies.
abbrev pub Matrix : Type 0
Matrix = List ℕ

-- A C++ string, as its characters.
abbrev pub Text : Type 0
Text = List ℕ

-- The fields stand in the order of the classes: `m_sender` first, or `m_objid` for the messages
-- of the physics engine, whose sender is null.
pub data ServerMsg : Type 0 where
  shutdown : ℕ → ServerMsg
  input : ℕ → ℕ → ServerMsg
  load_player : ℕ → Text → ServerMsg
  add_phys : ℕ → Text → Matrix → ServerMsg
  add_char : ℕ → Text → Matrix → ServerMsg
  del_phys : ℕ → ServerMsg
  del_char : ℕ → ServerMsg
  force_state : ℕ → ℕ → ServerMsg

-- `ServerMsg::MessageType`
abbrev pub shutdown_message : ℕ
shutdown_message = 0

abbrev pub input_message : ℕ
input_message = 1

abbrev pub load_player_message : ℕ
load_player_message = 2

abbrev pub subsystem_internal_start : ℕ
subsystem_internal_start = 3

abbrev pub subsystem_internal_end : ℕ
subsystem_internal_end = subsystem_internal_start + 0x200

-- The enumeration of `BulletInternalMsg`.
abbrev pub add_phys_message : ℕ
add_phys_message = subsystem_internal_start

abbrev pub add_char_message : ℕ
add_char_message = add_phys_message + 1

abbrev pub del_phys_message : ℕ
del_phys_message = add_char_message + 1

abbrev pub del_char_message : ℕ
del_char_message = del_phys_message + 1

abbrev pub force_state_message : ℕ
force_state_message = del_char_message + 1

-- The virtual function `type`.
unfoldable pub type : ServerMsg → ℕ
type (shutdown c) = shutdown_message
type (input c st) = input_message
type (load_player c t) = load_player_message
type (add_phys i t m) = add_phys_message
type (add_char i t m) = add_char_message
type (del_phys i) = del_phys_message
type (del_char i) = del_char_message
type (force_state i st) = force_state_message

abbrev pub sender : ServerMsg → ℕ
sender (shutdown c) = c
sender (input c st) = c
sender (load_player c t) = c
sender m = 0

-- `ServerMsg::create`. The constructor of `ServerInputMsg` leaves `m_state` as the memory is:
-- `garbage`.
unfoldable pub create : ℕ → ℕ → ℕ → Option ServerMsg
create garbage t cli =
    if t == shutdown_message
    then some (shutdown cli)
    else if t == input_message
    then some (input cli garbage)
    else if t == load_player_message
    then some (load_player cli [])
    else none

module _ (s : SocketWrapper) where
  open s use {Conn}

  -- `ServerInputMsg::read`
  abbrev read_input : ℕ → Io Conn ServerMsg
  read_input c = do v ← read_pod s 2; pure (input c v)

  -- `ServerLoadPlayerMsg::read`
  abbrev read_load_player : ℕ → Io Conn ServerMsg
  read_load_player c = do v ← read_string s; pure (load_player c v)

  -- The virtual function `read`: the message with its fields from the stream.
  unfoldable pub read : ServerMsg → Io Conn ServerMsg
  read (input c st) = read_input c
  read (load_player c t) = read_load_player c
  read m = pure m

  -- The virtual function `write`.
  unfoldable pub write : ServerMsg → Io Conn (Unit {0})
  write (input c st) = write_pod s 2 st
  write (load_player c t) = write_string s t
  write m = pure tt
