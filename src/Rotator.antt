-- ===== src/Rotator.antt =====
-- src/libs/proxy/ProxyRotator.ts: the list of proxies in use, in turn.
pub mod Pool
pub mod Selector
pub mod Log
pub mod Fetch
pub mod Trial
pub mod Waiting
pub mod Machine
