-- ===== src/Types.antt =====
-- types/: the commands of the protocol and the times that appear in statuses.
pub mod Command
pub mod Time
