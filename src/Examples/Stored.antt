-- ===== src/Examples/Stored.antt =====
-- A correlation that is stored and read again.
use dropbox_governed_executi.Prelude.{◌≡◌, refl, []}
use dropbox_governed_executi.Prelude.Int.{ℤ}
use dropbox_governed_executi.Result.{Result, ok, err, other}
use dropbox_governed_executi.Json.{Value, num, Fields, fields}
use dropbox_governed_executi.Platform.{Python}
use dropbox_governed_executi.Primitives.Patterns.{is_hex40, is_gtg_invocation_id, safe_id}
use dropbox_governed_executi.Contract.Evidence.{validate_invocation_evidence}
use dropbox_governed_executi.Contract.Correlation.{
  evidence_list, correlation_to_dict, correlation_from_dict,
}
use dropbox_governed_executi.Contract.Stored.{correlation_from_dict-correlation_to_dict}
use dropbox_governed_executi.Examples.Gep14.{digest, text_of, established}

abbrev int_value : Value → Result ℤ
int_value (num z) = ok z
int_value v = err (other "TypeError" "")

-- Numbers print as 7; texts and whole numbers are as Python has them.
instance abbrev storing_python : Python
storing_python = record {
  sha256 = λ raw. digest;
  dumps = λ value. [];
  loads = λ hook raw. err (other "JSONDecodeError" "");
  encode = λ text. [];
  str_of = text_of;
  int_of = int_value;
}

abbrev or_empty : Result Fields → Fields
or_empty (ok v) = v
or_empty (err e) = fields []

unfoldable stored : Fields
unfolding correlation_to_dict evidence_list validate_invocation_evidence is_gtg_invocation_id
    is_hex40 safe_id
stored = or_empty (correlation_to_dict established)

written : correlation_to_dict established ≡ ok stored
unfolding stored
written = refl

correlation_from_dict-correlation_to_dict_example : correlation_from_dict stored ≡ ok established
correlation_from_dict-correlation_to_dict_example =
    correlation_from_dict-correlation_to_dict (λ s. refl) (λ z. refl) established written
