-- ===== src/Snapcast.antt =====
-- handlers/snapcast: the handler of a snapcast server, and the structs that the snapcast bus uses, too.
pub mod Structs
pub mod Requests
pub mod Events
pub mod Restoring
pub mod Streams
