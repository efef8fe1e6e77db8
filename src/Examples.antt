-- ===== src/Examples.antt =====
-- The theorems at concrete inputs.
mod Floats
mod Watch
mod Feed
mod Battery
mod Mesh
mod Tables
mod Polls
mod Messages
mod Owners
mod Accounts
mod Checks
mod Pages
