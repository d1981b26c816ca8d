-- ===== src/DeepCopy.antt =====
-- The deep copies of api/v1/zz_generated.deepcopy.go, over a heap with pointers and slices.
pub mod Layout
pub mod Kinds
pub mod Heap
pub mod Reading
pub mod Copying
pub mod Copies
pub mod Growth
pub mod Rules
pub mod Lawful
pub mod Polls
pub mod Responses
pub mod Structs
pub mod Separate
pub mod Storing
pub mod Assigning
pub mod PatchBase
