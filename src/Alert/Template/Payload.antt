-- ===== src/Alert/Template/Payload.antt =====
-- The data of an alert in internal/alert/template.go: NewPayload, and the references to its fields.
use certel.Prelude.{suc, String, Bool, true, false, Option, none, some, List, [], ◌∷◌, ◌*◌, map}
use certel.Prelude.Int.{ℤ, pos, negsuc}
use certel.Prelude.Text.{Text, codes, join_texts, digits}
use certel.Clock.{Time, zero_time, second}
use certel.Token.{Fallible, error, ok}
use certel.Config.Tree.{Value, text, boolean, integer, words}
use certel.Config.Target.{TargetParams, proto_tls}
use certel.Probe.Result.{Result, CertInfo, status_expiring_soon, severity_warning}
use certel.Alert.Template.Times.{
  TemplateError, unknown_field, not_timestamp, find_text, format_time,
}

-- The values that NewPayload stores, and a timestamp.
pub data FieldVal : Type 0 where
  word : Text → FieldVal
  flag : Bool → FieldVal
  count : ℤ → FieldVal
  names : List Text → FieldVal
  timestamp : Time → FieldVal

pub record Payload : Type 0 where
  pub recovered : Bool
  pub fields : List (Text × FieldVal)

-- net.SplitHostPort, time.Format in UTC, and json.Marshal, which refuses some numbers.
pub record Formats (Bytes : Type 0) : Type 0 where
  pub split_host_port : String → Option (String × String)
  pub in_utc : Time → Text → Text
  pub marshal : Value → Option Bytes

abbrev host_of : String → Option (String × String) → String × String
host_of address none = (address, "")
host_of address (some p) = p

abbrev empty_cert : CertInfo
empty_cert = record {
  subject = "";
  cn = "";
  issuer = "";
  issuer_cn = "";
  issuer_org = "";
  signature_algorithm = "";
  sans = [];
  serial = "";
  not_before = zero_time;
  not_after = zero_time;
  earliest_not_after = zero_time;
  earliest_subject = "";
}

abbrev cert_of : Option CertInfo → CertInfo
cert_of none = empty_cert
cert_of (some c) = c

abbrev alert_rows : String × String → CertInfo → Result → Bool → List (Text × FieldVal)
alert_rows hp c r recovered =
    (codes "Host", word (codes hp.0))
    ∷ (codes "Address", word (codes r.target.address))
    ∷ (codes "Port", word (codes hp.1))
    ∷ (codes "Protocol", word (codes r.target.protocol))
    ∷ (codes "Status", word (codes r.status))
    ∷ (codes "Severity", word (codes r.severity))
    ∷ (codes "Message", word (codes r.message))
    ∷ (codes "Recovered", flag recovered)
    ∷ (codes "DaysLeft", count r.days_left)
    ∷ (codes "CheckedAt", timestamp r.checked_at)
    ∷ (codes "Cert.Subject", word (codes c.subject))
    ∷ (codes "Cert.SubjectCN", word (codes c.cn))
    ∷ (codes "Cert.Issuer", word (codes c.issuer))
    ∷ (codes "Cert.IssuerCN", word (codes c.issuer_cn))
    ∷ (codes "Cert.IssuerOrg", word (codes c.issuer_org))
    ∷ (codes "Cert.SigAlg", word (codes c.signature_algorithm))
    ∷ (codes "Cert.Serial", word (codes c.serial))
    ∷ (codes "Cert.SANs", names (map codes c.sans))
    ∷ (codes "Cert.NotBefore", timestamp c.not_before)
    ∷ (codes "Cert.NotAfter", timestamp c.not_after)
    ∷ (codes "Cert.EarliestNotAfter", timestamp c.earliest_not_after)
    ∷ []

unfoldable pub new_payload : {Bytes : Type 0} → Formats Bytes → Result → Bool → Payload
new_payload lib r recovered = record {
  recovered = recovered;
  fields =
      alert_rows (host_of r.target.address (lib.split_host_port r.target.address)) (cert_of r.cert)
        r recovered;
}

abbrev no_params : TargetParams
no_params = record {
  warning_days = none;
  critical_days = none;
  timeout = none;
  connect_retries = none;
  notifiers = [];
  alert_repeat_interval = record { per_severity = none; is_map = false };
  flap_streak = none;
}

-- The result of samplePayload; its times are those of the source, as seconds since the year 1.
abbrev pub sample_result : Result
sample_result = record {
  target = record {
    address = "example.com:443";
    servername = "";
    protocol = proto_tls;
    ca_file = "";
    insecure = false;
    params = no_params;
  };
  status = status_expiring_soon;
  severity = severity_warning;
  message = "certificate expires in 10 day(s), with \"quotes\" and\na newline to exercise escaping";
  checked_at = 63902850420 * second;
  duration = pos 0;
  attempts = 0;
  cert = some (record {
    subject = "CN=example.com";
    cn = "example.com";
    issuer = "CN=R13,O=Let's Encrypt,C=US";
    issuer_cn = "R13";
    issuer_org = "Let's Encrypt";
    signature_algorithm = "SHA-256 with RSA encryption";
    sans = "example.com" ∷ "www.example.com" ∷ [];
    serial = "123456789";
    not_before = 63912872820 * second;
    not_after = 63920648820 * second;
    earliest_not_after = 63920648820 * second;
    earliest_subject = "";
  });
  verify_ok = false;
  verified_not_after = zero_time;
  days_left = pos 10;
}

unfoldable pub sample_payload : {Bytes : Type 0} → Formats Bytes → Payload
unfolding new_payload
sample_payload lib = new_payload lib sample_result false

-- strconv.Itoa and strconv.FormatBool.
abbrev itoa : ℤ → Text
itoa (pos n) = digits (suc n) n
itoa (negsuc n) = 45 ∷ digits (suc (suc n)) (suc n)

abbrev format_bool : Bool → Text
format_bool true = codes "true"
format_bool false = codes "false"

-- The types of a value that toString meets; a timestamp has its own branch before it.
unfoldable pub to_string : FieldVal → Text
to_string (word s) = s
to_string (flag b) = format_bool b
to_string (count n) = itoa n
to_string (names ss) = join_texts (codes ", ") ss
to_string (timestamp t) = []

abbrev pub only_plain : {A : Type 0} → Text → Text → A → Fallible TemplateError A
only_plain path [] a = ok a
only_plain path (b ∷ f) a = error (not_timestamp path (b ∷ f))

module _ {Bytes : Type 0} (lib : Formats Bytes) where
  -- `resolveString` behind the lookup of its field.
  unfoldable pub string_of : Text → Text → Option FieldVal → Fallible TemplateError Text
  unfolding to_string
  string_of path f none = error (unknown_field path)
  string_of path f (some (timestamp t)) = format_time lib.in_utc t f
  string_of path f (some (word s)) = only_plain path f (to_string (word s))
  string_of path f (some (flag b)) = only_plain path f (to_string (flag b))
  string_of path f (some (count n)) = only_plain path f (to_string (count n))
  string_of path f (some (names ss)) = only_plain path f (to_string (names ss))

  unfoldable pub resolve_string : Payload → Text → Text → Fallible TemplateError Text
  unfolding string_of find_text
  resolve_string p path f = string_of path f (find_text path p.fields)

  abbrev pub as_text : Fallible TemplateError Text → Fallible TemplateError Value
  as_text (error e) = error e
  as_text (ok s) = ok (text s)

  -- `resolveNative` behind the lookup of its field.
  unfoldable pub native_of : Text → Text → Option FieldVal → Fallible TemplateError Value
  native_of path f none = error (unknown_field path)
  native_of path f (some (timestamp t)) = as_text (format_time lib.in_utc t f)
  native_of path f (some (word s)) = only_plain path f (text s)
  native_of path f (some (flag b)) = only_plain path f (boolean b)
  native_of path f (some (count n)) = only_plain path f (integer n)
  native_of path f (some (names ss)) = only_plain path f (words ss)

  unfoldable pub resolve_native : Payload → Text → Text → Fallible TemplateError Value
  unfolding native_of find_text
  resolve_native p path f = native_of path f (find_text path p.fields)
