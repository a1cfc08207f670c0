-- ===== src/Gep14.antt =====
-- The correlation port of src/dger/gen4_gep14_correlation.py: authenticated reads of the owners of
-- a request, the checks of each answer, and the correlation built from them.
pub mod Reads
pub mod Answers
pub mod Peers
pub mod Bound
