-- ===== src/Validate.antt =====
-- pantry/validate: the rules on texts (rules.go) and the patterns they use (validate.go).
pub mod Patterns
pub mod Formats
pub mod Rules
pub mod Checksums
pub mod Texts
pub mod Codes
pub mod Parsers
pub mod Sizes
mod Examples
