-- ===== src/Mapper.antt =====
-- The data mapping of src/mapper.cpp, mapper_context.cpp, fieldmap.cpp and transform.cpp.
pub mod Bigint
pub mod Context
pub mod Visitor
pub mod Encoder
pub mod FieldMap
pub mod TransformQueue
pub mod Scalars
pub mod Accessors
pub mod Handlers
