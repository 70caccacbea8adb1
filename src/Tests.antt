-- ===== src/Tests.antt =====
-- Tests of the definitions on small inputs, and instances of the theorems.
mod Samples
mod Wire
mod Routing
mod Relay
mod Holders
mod Actions
mod Devices
mod Settings
mod Switches
mod Platforms
mod Shutdowns
mod Buses
mod Speakers
mod Services
mod Statuses
mod Times
