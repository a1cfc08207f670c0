-- ===== src/Runtime/Compose.antt =====
-- `Gen4RuntimePeers` and `compose_gen4_peers` of src/dger/gen4_runtime_peers.py as the peers of the
-- relay. What stands in the inbox of the host and at a frozen path is read when it is asked for.
use dropbox_governed_executi.Prelude.{String}
use dropbox_governed_executi.Result.{Result, ok, err, other, ◌>>=◌}
use dropbox_governed_executi.Platform.{Python}
use dropbox_governed_executi.Contract.Types.{ServiceIdentity, TrustedCorrelation, StageReceipt}
use dropbox_governed_executi.Relay.History.{History}
use dropbox_governed_executi.Relay.Exec.{Peers}
use dropbox_governed_executi.Gep14.Peers.{gep14_peers}
use dropbox_governed_executi.Runtime.Calls.{Invoker, invoke_read}
use dropbox_governed_executi.Runtime.Stage.{Inbox, FrozenStage, runtime_stage_moh}
use dropbox_governed_executi.Runtime.Peers.{
  runtime_ahc_begin, runtime_ahc_status, runtime_moh_execute, runtime_moh_status,
  runtime_ahc_note_in_doubt, runtime_ahc_accept_terminal, runtime_chm_publish_terminal,
}

module _ ⦃py : Python⦄ (invoker : Invoker) (service : ServiceIdentity)
    (inbox_at : History → String → Inbox) (frozen_at : String → FrozenStage) where
  unfoldable pub runtime_stage_call :
      History → TrustedCorrelation → String → String → Result StageReceipt
  unfolding runtime_stage_moh
  runtime_stage_call h c frozen_stage manifest = do
    (receipt, final) ←
        runtime_stage_moh (inbox_at h c.gep_execution_id) c (frozen_at frozen_stage) manifest
    ok receipt

  -- Gen4RuntimePeers has no `establish_correlation`, and Gep14CorrelationPeers does not ask it for
  -- one: Python would raise an AttributeError.
  unfoldable pub compose_gen4_peers : Peers
  unfolding runtime_stage_call invoke_read gep14_peers
  compose_gen4_peers =
      gep14_peers
        (record {
          establish_correlation =
              λ h request admission manifest identity. err (other "AttributeError" "");
          stage_moh = runtime_stage_call;
          ahc_begin = runtime_ahc_begin invoker service;
          ahc_status = runtime_ahc_status invoker service;
          moh_execute = runtime_moh_execute invoker service;
          moh_status = runtime_moh_status invoker service;
          ahc_note_in_doubt = runtime_ahc_note_in_doubt invoker service;
          ahc_accept_terminal = runtime_ahc_accept_terminal invoker service;
          chm_publish_terminal = runtime_chm_publish_terminal invoker service;
        })
        (invoke_read invoker)
