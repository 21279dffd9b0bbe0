-- ===== src/Memory.antt =====
-- Go's memory where the code shares it: the generated deep copies of api/v1beta1, and the update
-- validators of internal/webhook/v1beta1 that write into such copies.
pub mod Heap
pub mod Separation
pub mod Cells
pub mod Copying
pub mod Shapes
pub mod Structs
pub mod Objects
pub mod Layout
pub mod Contents
pub mod Slots
pub mod Readings
pub mod DeepCopyInto
pub mod DeepCopy
pub mod Copied
pub mod Independent
pub mod Admission
pub mod Admitted
pub mod Amended
pub mod AmendedTemplates
pub mod Refined
pub mod Kinds
