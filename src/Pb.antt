-- ===== src/Pb.antt =====
-- The hand-written wire-format decoder, src/pb.
pub mod Types
pub mod Descriptor
pub mod FieldLookup
pub mod Decoder
pub mod Tokens
pub mod Values
