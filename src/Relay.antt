-- ===== src/Relay.antt =====
-- The Generation 4 relay: the classes of src/dger/gen4_state.py, src/dger/gen4_effect.py and
-- src/dger/gen4_driver.py, and what their runs promise.
pub mod State
pub mod History
pub mod Exec
pub mod Current
pub mod Effect
pub mod Ingress
pub mod Driver
pub mod Unavailable
pub mod Unchanged
pub mod Outcome
pub mod Index
pub mod Wal
pub mod Safety
pub mod Promises
