-- ===== src/Relay/Safety.antt =====
-- A predicate on the history of src/dger/gen4_effect.py and gen4_driver.py, and its rules.
pub mod Trace
pub mod Rules
pub mod Ahc
pub mod Moh
pub mod Execute
pub mod Publish
pub mod Correlate
pub mod Disk
pub mod Advance
pub mod Runs
pub mod Reach
