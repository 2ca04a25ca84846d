-- ===== src/Tests.antt =====
-- Runs of the models at concrete inputs, and the theorems applied there.
mod Drawing
mod Screens
mod Keyboard
mod Clients
mod Settings
mod Wire
mod Service
mod Stuck
mod Together
mod Statistics
