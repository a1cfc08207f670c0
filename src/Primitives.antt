-- ===== src/Primitives.antt =====
-- src/dger/gen4_primitives.py: identifiers, strict JSON, safe reads, payload manifests, the request
-- and its READY record. One child for each group of functions, and `Bounds` for what they promise.
pub mod Patterns
pub mod Parsing
pub mod Files
pub mod Payload
pub mod Package
pub mod Bounds
pub mod Resolve
pub mod Objects
