-- ===== src/Contract/Observations.antt =====
-- `_validate_ahc` and `_validate_moh` of src/dger/gen4_contract.py, with the sets of states of
-- src/dger/gen4_primitives.py.
use dropbox_governed_executi.Prelude.{
  ℕ, ◌*◌, String, Bool, ◌&&◌, ◌||◌, Option, none, some, List, [], ◌∷◌, ◌==◌, leb, elem, length,
}
use dropbox_governed_executi.Result.{Result, ok, require, ◌>>◌}
use dropbox_governed_executi.Json.{str}
use dropbox_governed_executi.Platform.{Python, canonical_bytes}
use dropbox_governed_executi.Primitives.Patterns.{is_hex64, safe_id}
use dropbox_governed_executi.Contract.Types.{
  ahc_tool_id, moh_tool_id, TrustedCorrelation, AhcObservation, MohObservation,
}
use dropbox_governed_executi.Contract.Dicts.{moh_asdict}
use dropbox_governed_executi.Contract.Evidence.{validate_invocation_evidence}

-- MOH_SAFE_TO_FIRST_OR_PROVEN_RETRY
abbrev pub moh_safe : List String
moh_safe = "NOT_FOUND" ∷ "ADMITTED" ∷ []

abbrev pub moh_nonterminal : List String
moh_nonterminal = "START_INTENT_COMMITTED" ∷ "RUNNING" ∷ []

abbrev pub moh_terminal : List String
moh_terminal = "SUCCEEDED" ∷ "FAILED" ∷ "REJECTED_PRECONDITION" ∷ "REJECTED_DUPLICATE_MISMATCH" ∷ []

-- Membership in MOH_ALL, the union of the three sets with `IN_DOUBT`.
abbrev pub is_moh_state : String → Bool
is_moh_state s = elem s moh_safe || elem s moh_nonterminal || elem s moh_terminal || s == "IN_DOUBT"

abbrev pub ahc_states : List String
ahc_states = "RESERVED" ∷ "IN_DOUBT" ∷ "SUCCEEDED" ∷ "FAILED" ∷ []

abbrev pub max_peer_observation_bytes : ℕ
max_peer_observation_bytes = 512 * 1024

unfoldable pub optional_record_id : Option String → Result (Unit {0})
unfolding safe_id
optional_record_id none = ok tt
optional_record_id (some r) = do safe_id (str r) "MOH_RECORD_ID_INVALID"; ok tt

module _ ⦃py : Python⦄ where
  unfoldable pub validate_ahc : AhcObservation → TrustedCorrelation → String → Result (Unit {0})
  unfolding validate_invocation_evidence
  validate_ahc obs c expected_operation = do
    require
        (obs.effect_reservation_id == c.ahc_effect_reservation_id
          && obs.gep_execution_id == c.gep_execution_id)
        "AHC_OBSERVATION_CORRELATION_MISMATCH"
    require (elem obs.state ahc_states) "AHC_OBSERVATION_STATE_INVALID"
    require (is_hex64 obs.observation_digest) "AHC_OBSERVATION_DIGEST_INVALID"
    validate_invocation_evidence obs.invocation_evidence (some ahc_tool_id)
        (some expected_operation)
    ok tt

  unfoldable pub validate_moh : MohObservation → TrustedCorrelation → String → Result (Unit {0})
  unfolding optional_record_id validate_invocation_evidence canonical_bytes moh_asdict
  validate_moh obs c expected_operation = do
    require (obs.gep_execution_id == c.gep_execution_id) "MOH_EXECUTION_MISMATCH"
    require (is_moh_state obs.state) "MOH_STATE_INVALID"
    optional_record_id obs.record_id
    require (is_hex64 obs.evidence_digest) "MOH_EVIDENCE_DIGEST_INVALID"
    validate_invocation_evidence obs.invocation_evidence (some moh_tool_id)
        (some expected_operation)
    require (leb (length (canonical_bytes (moh_asdict obs))) max_peer_observation_bytes)
        "MOH_OBSERVATION_TOO_LARGE"
    ok tt
