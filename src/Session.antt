-- ===== src/Session.antt =====
-- transport/session.go: the parts of a Session that decide on a packet by themselves.
pub mod Replay
pub mod Links
pub mod Admission
pub mod Endpoint
