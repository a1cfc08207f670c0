-- ===== src/Relay/Safety/Correlate.antt =====
-- The correlation of a request keeps the invariant.
use dropbox_governed_executi.Prelude.{String, refl, none, some, Option, []}
use dropbox_governed_executi.Result.{Result, ok, err}
use dropbox_governed_executi.Platform.{Bytes, Python}
use dropbox_governed_executi.Contract.Types.{TrustedCorrelation}
use dropbox_governed_executi.Relay.History.{indexed}
use dropbox_governed_executi.Relay.Exec.{Relay, emit}
use dropbox_governed_executi.Relay.Ingress.{index_onto, index_gep, correlate_answer, correlate}
use dropbox_governed_executi.Relay.Safety.Rules.{
  after_get, after_check, after_now, after_modify, after_ask, after_run, never, Keeps, Inv,
  Keeps-blocked, Keeps-saved_status_fault, Keeps-bind, state-Inv, Quiet-Inv, indexed-Quiet,
  asked_correlation,
}

module _ ⦃py : Python⦄ where
  Keeps-emit_indexed : (name : String) (raw : Bytes) → Keeps Inv (emit (indexed name raw))
  unfolding emit
  Keeps-emit_indexed name raw x i = Quiet-Inv _ (indexed-Quiet name raw) x i

  index_onto-Inv :
      (found : Option Bytes) (name : String) (raw : Bytes) → Keeps Inv (index_onto found name raw)
  unfolding index_onto
  index_onto-Inv (some old) name raw x i = after_check Inv x _ _ i λ _ _. i
  index_onto-Inv none name raw x i =
      Keeps-bind _ _ (Keeps-emit_indexed name []) (λ _. Keeps-emit_indexed name raw) x i

  index_gep-Inv : (c : TrustedCorrelation) → Keeps Inv (index_gep c)
  unfolding index_gep
  index_gep-Inv c x i = index_onto-Inv _ _ _ x i

  correlate_answer-Inv :
      (self : Relay) (r : Result TrustedCorrelation) → Keeps Inv (correlate_answer self r)
  unfolding correlate_answer
  correlate_answer-Inv self (err exc) x i = Keeps-blocked self _ _ exc x i
  correlate_answer-Inv self (ok c) x i = after_get Inv x _ (
      after_check Inv x _ _ i λ _ _.
        after_run {P = Inv} {Q = Inv} (index_gep c) _ x (λ y j. j) (index_gep-Inv c x i)
          λ _ y j. after_check Inv y _ _ j λ _ _. after_now Inv y self _ λ t.
            after_modify Inv y _ _ (
              Keeps-saved_status_fault self _ _ _ _
                (state-Inv _ y j refl (λ p. p) (never _ refl) (never _ refl) (never _ refl))))

  pub correlate-Inv : (self : Relay) → Keeps Inv (correlate self)
  unfolding correlate
  correlate-Inv self x i = after_get Inv x _ (
      after_check Inv x _ _ i
        λ _ _. after_ask Inv x _ _ _ _ λ r. correlate_answer-Inv self r _ (asked_correlation x i r))
