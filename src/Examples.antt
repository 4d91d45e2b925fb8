-- ===== src/Examples.antt =====
-- The theorems at concrete inputs.
mod Fixtures
mod Parsing
mod Queueing
mod Serving
mod Receiving
mod Sending
mod Running
mod Interleaving
mod Sharing
mod Turning
mod Journeys
mod Printing
