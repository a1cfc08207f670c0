-- ===== src/Gen3.antt =====
-- The first production relay, src/dger/relay_*.py ("Generation 3"), which a Gen4 marker retires. Its
-- exceptions are those of `DgerError`.
pub mod Values
pub mod Parsing
pub mod Files
pub mod Payload
pub mod Bounds
pub mod Ingress
pub mod Stage
pub mod Attestation
pub mod Binding
pub mod Response
pub mod State
pub mod Exec
pub mod Moh
pub mod Chm
pub mod Advance
pub mod Accept
pub mod Start
pub mod Safe
pub mod Scan
