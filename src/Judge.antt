-- ===== src/Judge.antt =====
-- src/libs/judge: the judge that tests proxies.
pub mod Messages
pub mod Level
pub mod Monitor
pub mod Results
pub mod Request
pub mod Service
pub mod Validation
pub mod Connection
pub mod Selftest
