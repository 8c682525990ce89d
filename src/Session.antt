-- ===== src/Session.antt =====
-- src/data_structures/session.c: the table of sessions that the listener and the workers share.
pub mod Word
pub mod Table
pub mod Push
pub mod Pop
