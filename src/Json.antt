-- ===== src/Json.antt =====
-- lsp/json: the value type, the string literals, the printer and the parser.
pub mod Literal
pub mod Value
pub mod Print
pub mod Parser
pub mod RoundTrip
mod Tests
