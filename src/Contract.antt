-- ===== src/Contract.antt =====
-- src/dger/gen4_contract.py: the values that the peers give to the relay, and their checks. The
-- data classes stand in `Types`, their dictionaries in `Dicts`, the checks in the other children.
pub mod Types
pub mod Dicts
pub mod Evidence
pub mod Identity
pub mod Correlation
pub mod Observations
pub mod Binding
pub mod Stored
