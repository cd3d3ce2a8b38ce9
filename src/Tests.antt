-- ===== src/Tests.antt =====
-- The theorems at concrete inputs.
mod Network
mod Judging
mod Rotating
mod Agents
mod Tables
mod Validating
mod Together
mod Fetching
