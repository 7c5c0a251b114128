-- ===== src/Translator.antt =====
-- internal/translator: the translation between the formats of Claude and of Codex.
mod Tests
mod StreamTests
pub mod Registry
pub mod Values
pub mod Names
pub mod Tools
pub mod Messages
pub mod Request
pub mod Usage
pub mod Decoration
pub mod Response
pub mod Claude
pub mod Kinds
pub mod Events
pub mod Sse
pub mod Stream
