-- ===== src/Relay/Current.antt =====
-- `_c` of src/dger/gen4_state.py: the trusted correlation of a request, checked at each use.
use dropbox_governed_executi.Prelude.{◌==◌}
use dropbox_governed_executi.Result.{Result, ok, dger, require, some_or, ◌>>=◌, ◌>>◌}
use dropbox_governed_executi.Platform.{Python}
use dropbox_governed_executi.Contract.Types.{ServiceIdentity, TrustedCorrelation}
use dropbox_governed_executi.Contract.Correlation.{correlation_from_dict, validate_correlation}
use dropbox_governed_executi.Relay.State.{State}

unfoldable pub current_correlation :
    ⦃py : Python⦄ → ServiceIdentity → State → Result TrustedCorrelation
unfolding correlation_from_dict validate_correlation
current_correlation service s = do
  value ← some_or s.trusted_correlation (dger "TRUSTED_CORRELATION_MISSING" "")
  require (s.service_identity_digest == service.identity_digest) "DGER_SERVICE_IDENTITY_CHANGED"
  c ← correlation_from_dict value
  validate_correlation c s.request s.admission_sha256 s.payload_manifest_sha256 service
  ok c
