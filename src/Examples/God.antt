-- ===== src/Examples/God.antt =====
-- A launch agent file that is replaced and put back.
use dropbox_governed_executi.Prelude.{ℕ, false, [], ◌∷◌}
use dropbox_governed_executi.Prelude.Int.{ℤ, pos, negsuc}
use dropbox_governed_executi.Result.{Result, ok, err, other}
use dropbox_governed_executi.Json.{Fields, fields, str, num}
use dropbox_governed_executi.Platform.{Python}
use dropbox_governed_executi.Primitives.Files.{Entry, regular}
use dropbox_governed_executi.God.Snapshot.{Host, plain_parent, no_parent, Target}

instance abbrev host_python : Python
host_python = record {
  sha256 = λ raw. "digest";
  dumps = λ value. [];
  loads = λ hook raw. err (other "JSONDecodeError" "");
  encode = λ text. [];
  str_of = λ value. "";
  int_of = λ value. err (other "TypeError" "");
}

abbrev mode_set : ℤ → Result ℕ
mode_set (pos n) = ok n
mode_set (negsuc n) = err (other "OverflowError" "")

abbrev sample_host : Host
sample_host = record {
  encode_base64 = λ raw. "aGk=";
  decode_base64 = λ text. ok (104 ∷ 105 ∷ []);
  chmod = mode_set;
}

abbrev agent : Entry
agent = regular 0o644 2 (104 ∷ 105 ∷ [])

abbrev agent_saved : Fields
agent_saved = fields (
    ("status", str "PRESENT")
    ∷ ("mode", num (pos 0o644))
    ∷ ("sha256", str "digest")
    ∷ ("base64", str "aGk=")
    ∷ [])

-- Another file has come to the path.
abbrev replaced : Target
replaced = record {
  entry = regular 0o600 1 (33 ∷ []);
  leads = false;
  parents = plain_parent ∷ no_parent ∷ [];
  made = plain_parent ∷ plain_parent ∷ [];
  temp_taken = false;
  write = ok tt;
}
