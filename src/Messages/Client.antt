-- ===== src/Messages/Client.antt =====
-- core/messages/client.
pub mod Wire
use quintses.Common.{ℕ, ◌^◌, Option, none, some, [], ◌==◌, if◌then◌else◌}
use quintses.Socket.{
  Io, SocketWrapper, pure, ◌>>=◌, ◌>>◌, read_pod, write_pod, read_string, write_string,
}
use quintses.Messages.Server.{Matrix, Text}

-- `m_objid` first, then the template or the transform.
pub data ClientMsg : Type 0 where
  add_drawable : ℕ → Text → ClientMsg
  add_audible : ℕ → Text → ClientMsg
  trans_drawable : ℕ → Matrix → ClientMsg
  trans_audible : ℕ → Matrix → ClientMsg
  del_drawable : ℕ → ClientMsg
  del_audible : ℕ → ClientMsg

-- The virtual function `type`, with the numbers of `ClientMsg::MessageType`.
unfoldable pub type : ClientMsg → ℕ
type (add_drawable i t) = 0
type (add_audible i t) = 1
type (trans_drawable i m) = 2
type (trans_audible i m) = 3
type (del_drawable i) = 4
type (del_audible i) = 5

-- `ClientMsg::create`. `ClientTransObjectMsg` copies no matrix from a null pointer, and its
-- `m_transform` stays as the memory is: `garbage`.
unfoldable pub create : Matrix → ℕ → Option ClientMsg
create garbage t =
    if t == 1
    then some (add_audible 0 [])
    else if t == 0
    then some (add_drawable 0 [])
    else if t == 3
    then some (trans_audible 0 garbage)
    else if t == 2
    then some (trans_drawable 0 garbage)
    else if t == 5
    then some (del_audible 0)
    else if t == 4
    then some (del_drawable 0)
    else none

module _ (s : SocketWrapper) where
  open s use {Conn}

  -- `ClientAddObjectMsg::read`, for the two classes below it.
  read_add : (ℕ → Text → ClientMsg) → Io Conn ClientMsg
  read_add build = do i ← read_pod s 4; t ← read_string s; pure (build i t)

  -- `ClientTransObjectMsg::read`
  read_trans : (ℕ → Matrix → ClientMsg) → Io Conn ClientMsg
  read_trans build = do i ← read_pod s 4; m ← s.read 64; pure (build i m)

  -- `ClientDelObjectMsg::read`
  read_del : (ℕ → ClientMsg) → Io Conn ClientMsg
  read_del build = do i ← read_pod s 4; pure (build i)

  -- The virtual function `read`.
  unfoldable pub read : ClientMsg → Io Conn ClientMsg
  unfolding read_add read_trans read_del
  read (add_drawable i t) = read_add add_drawable
  read (add_audible i t) = read_add add_audible
  read (trans_drawable i m) = read_trans trans_drawable
  read (trans_audible i m) = read_trans trans_audible
  read (del_drawable i) = read_del del_drawable
  read (del_audible i) = read_del del_audible

  -- `ClientAddObjectMsg::write`
  write_add : ℕ → Text → Io Conn (Unit {0})
  write_add i t = write_pod s 4 i >> write_string s t

  -- `ClientTransObjectMsg::write`
  write_trans : ℕ → Matrix → Io Conn (Unit {0})
  write_trans i m = write_pod s 4 i >> s.write m

  -- `ClientDelObjectMsg::write`
  write_del : ℕ → Io Conn (Unit {0})
  write_del i = write_pod s 4 i

  -- The virtual function `write`.
  unfoldable pub write : ClientMsg → Io Conn (Unit {0})
  unfolding write_add write_trans write_del
  write (add_drawable i t) = write_add i t
  write (add_audible i t) = write_add i t
  write (trans_drawable i m) = write_trans i m
  write (trans_audible i m) = write_trans i m
  write (del_drawable i) = write_del i
  write (del_audible i) = write_del i
