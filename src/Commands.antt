-- ===== src/Commands.antt =====
-- src/commands and src/libs/OutputHelper.ts: what the commands read, ask for and print.
pub mod Output
pub mod Addresses
pub mod Characters
pub mod Fields
pub mod RoundTrip
pub mod Fetch
