-- ===== src/Gtg.antt =====
-- src/dger/gtg_http.py: the HTTP client of the tool gateway, which the first relay calls.
pub mod Client
pub mod Attested
