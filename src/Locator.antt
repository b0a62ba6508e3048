-- ===== src/Locator.antt =====
-- source/utils/UsdFileLocator.h: which client-supplied paths are accepted, and where they lead.
pub mod Decode
pub mod Path
pub mod Served
pub mod Upload
pub mod Accepted
pub mod Roundtrip
mod Tests
