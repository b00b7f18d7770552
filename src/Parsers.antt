-- ===== src/Parsers.antt =====
-- src/codegenie/parsers: the readers of untrusted files that cap what they accept.
pub mod Jsonc
pub mod Depth
pub mod Loading
mod Tests
