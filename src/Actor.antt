-- ===== src/Actor.antt =====
-- handlers/actor: actions that are performed when the status changes to match their queries.
pub mod Compare
pub mod Query
pub mod Durations
pub mod Language
pub mod Decoding
pub mod Encoding
pub mod Handler
pub mod Comparing
pub mod Firing
pub mod Editing
pub mod Rewriting
