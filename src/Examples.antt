-- ===== src/Examples.antt =====
-- Runs of the code on small inputs: messages of a few bytes, tables of a few fields.
pub mod Accessors
pub mod Decoding
pub mod Mapping
pub mod Visiting
pub mod Encoding
pub mod Handlers
pub mod Structures
pub mod Packages
pub mod Scalars
