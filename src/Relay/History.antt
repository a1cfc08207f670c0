-- ===== src/Relay/History.antt =====
-- What a relay has done: its durable writes, its calls of the peers and their answers, the newest
-- first. The content of a file is what was written to it last; a process that dies leaves the
-- history as far as it had got.
use dropbox_governed_executi.Prelude.{
  String, Option, none, some, List, [], ◌∷◌, ◌==◌, if◌then◌else◌,
}
use dropbox_governed_executi.Result.{Result}
use dropbox_governed_executi.Json.{Value}
use dropbox_governed_executi.Platform.{Bytes}
use dropbox_governed_executi.Primitives.Files.{Entry}
use dropbox_governed_executi.Contract.Types.{
  TrustedCorrelation, StageReceipt, AhcObservation, MohObservation, Ack,
}
use dropbox_governed_executi.Relay.State.{State}

-- The methods of `Gen4Peers`.
pub data Call : Type 0 where
  establish_correlation stage_moh ahc_begin ahc_status moh_execute moh_status : Call
  ahc_note_in_doubt ahc_accept_terminal chm_publish_terminal : Call

-- The three files and the payload under `frozen/<dger_request_id>`.
pub record Frozen : Type 0 where
  pub request_raw : Bytes
  pub admission_raw : Bytes
  pub ready_raw : Bytes
  pub payload : List (String × Entry)

-- Each event names its request first, `indexed` the name of the index file.
pub data Event : Type 0 where
  saved : String → State → Event
  status_written : String → String → String → List (String × Value) → Event
  fault : String → Event
  froze : String → Frozen → Event
  indexed : String → Bytes → Event
  published : String → Bytes → Event
  called : String → Call → Event
  correlation_replied : String → Result TrustedCorrelation → Event
  stage_replied : String → Result StageReceipt → Event
  ahc_replied : String → Call → Result AhcObservation → Event
  moh_replied : String → Call → Result MohObservation → Event
  ack_replied : String → Call → Result Ack → Event

abbrev pub History : Type 0
History = List Event

-- `_load_state`, where the file can be read: it reads back what was saved last. Of a file over its limit of
-- 1 MiB, or damaged by another program, the source raises before anything else is done.
unfoldable pub last_saved : String → History → Option State
last_saved rid [] = none
last_saved rid (saved j s ∷ h) = let older = last_saved rid h in if j == rid then some s else older
last_saved rid (_ ∷ h) = last_saved rid h

-- The content of `frozen/<dger_request_id>`.
unfoldable pub last_frozen : String → History → Option Frozen
last_frozen rid [] = none
last_frozen rid (froze j f ∷ h) =
    let older = last_frozen rid h in if j == rid then some f else older
last_frozen rid (_ ∷ h) = last_frozen rid h

-- The content of an index file.
unfoldable pub last_indexed : String → History → Option Bytes
last_indexed name [] = none
last_indexed name (indexed j raw ∷ h) =
    let older = last_indexed name h in if j == name then some raw else older
last_indexed name (_ ∷ h) = last_indexed name h
