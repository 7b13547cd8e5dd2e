-- ===== src/Lspgen.antt =====
-- lspgen/lspgen.cpp: the generator of the message types. Modelled is how it reads the meta model.
pub mod Text
pub mod Types
pub mod Declarations
pub mod Readers
pub mod MetaModel
pub mod Resolved
pub mod Extracted
pub mod Fuel
pub mod Terminates
pub mod Members
pub mod Total
pub mod Places
mod Tests
