-- ===== src/Messages.antt =====
-- core/messages: the message classes of both directions, each a data type with a constructor for
-- each concrete class.
pub mod Server
pub mod Client
