-- ===== src/Relay/Unavailable.antt =====
-- `UnavailableGen4Peers` of src/dger/gen4_contract.py: the peers of a relay for which no others were
-- delivered.
use dropbox_governed_executi.Result.{Result, raise}
use dropbox_governed_executi.Relay.Exec.{Peers}

-- `_no`, whatever the arguments are.
abbrev pub no_peer {ℓ} : {A : Type ℓ} → Result A
no_peer = raise "GEN4_PEER_CONTRACTS_UNAVAILABLE"

unfoldable unavailable_peers : Peers
unavailable_peers = record {
  establish_correlation = λ h request admission manifest identity. no_peer;
  stage_moh = λ h c frozen_stage payload_manifest_sha256. no_peer;
  ahc_begin = λ h c. no_peer;
  ahc_status = λ h c. no_peer;
  moh_execute = λ h c. no_peer;
  moh_status = λ h c. no_peer;
  ahc_note_in_doubt = λ h c moh_observation_digest. no_peer;
  ahc_accept_terminal = λ h c terminal_digest result_ref result_sha256. no_peer;
  chm_publish_terminal = λ h c result_ref result_sha256. no_peer;
}
