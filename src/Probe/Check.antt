-- ===== src/Probe/Check.antt =====
-- What internal/probe/probe.go makes of the certificates that a server presents. The X.509 library and
-- the conversion of a duration to days are parameters; the text of a message is left out.
pub mod Chains
pub mod Diagnosis
pub mod Walk
use certel.Prelude.{
  ℕ, zero, suc, String, Bool, true, false, Option, none, some, List, [], ◌∷◌, not, ◌&&◌, ltb,
  str_eq, length, if◌then◌else◌,
}
use certel.Prelude.Int.{ℤ, pos, ltb_ℤ}
use certel.Clock.{Time, Duration, zero_time, is_zero, sub_time}
use certel.Config.Target.{Target}
use certel.Probe.Result.{
  Result, CertInfo, effective_not_after, status_ok, status_expiring_soon, status_expired,
  status_invalid, status_weak_signature, severity_ok, severity_warning, severity_critical,
  severity_emergency,
}

-- x509.SignatureAlgorithm, as far as the source names its values.
pub data SignatureAlgorithm : Type 0 where
  md2_with_rsa : SignatureAlgorithm
  md5_with_rsa : SignatureAlgorithm
  sha1_with_rsa : SignatureAlgorithm
  dsa_with_sha1 : SignatureAlgorithm
  ecdsa_with_sha1 : SignatureAlgorithm
  sha256_with_rsa : SignatureAlgorithm
  sha384_with_rsa : SignatureAlgorithm
  sha512_with_rsa : SignatureAlgorithm
  sha256_with_rsa_pss : SignatureAlgorithm
  sha384_with_rsa_pss : SignatureAlgorithm
  sha512_with_rsa_pss : SignatureAlgorithm
  ecdsa_with_sha256 : SignatureAlgorithm
  ecdsa_with_sha384 : SignatureAlgorithm
  ecdsa_with_sha512 : SignatureAlgorithm
  pure_ed25519 : SignatureAlgorithm
  unnamed : SignatureAlgorithm

-- What the check reads of a certificate; the raw names are kept as text.
pub record Certificate : Type 0 where
  pub subject : String
  pub cn : String
  pub issuer : String
  pub issuer_cn : String
  pub issuer_organizations : List String
  pub signature_algorithm : SignatureAlgorithm
  pub dns_names : List String
  pub serial : String
  pub not_before : Time
  pub not_after : Time
  pub raw_issuer : String
  pub raw_subject : String

-- `Verify` of the library: chains, of which there is at least one, or an error.
pub data Verification : Type 0 where
  chains : List Certificate → List (List Certificate) → Verification
  hostname_error : Verification
  other_error : Verification

pub record Library : Type 0 where
  pub verify : Target → List Certificate → Time → Verification
  pub algorithm_name : SignatureAlgorithm → String
  -- int(d.Hours() / 24)
  pub whole_days : Duration → ℤ

unfoldable pub earliest_from : Time → List Certificate → Time
earliest_from earliest [] = earliest
earliest_from earliest (c ∷ rest) =
    earliest_from (if ltb c.not_after earliest then c.not_after else earliest) rest

unfoldable pub earliest_not_after : List Certificate → Time
unfolding earliest_from
earliest_not_after [] = zero_time
earliest_not_after (c ∷ rest) = earliest_from c.not_after rest

-- The loop of `verify` over the other chains.
unfoldable pub best_chain : List Certificate → List (List Certificate) → List Certificate
best_chain best [] = best
best_chain best (chain ∷ rest) =
    best_chain (if ltb (earliest_not_after best) (earliest_not_after chain) then chain else best)
      rest

-- The first certificate with a subject, and the others.
unfoldable pub take_subject : String → List Certificate → Option (Certificate × List Certificate)
take_subject name [] = none
take_subject name (c ∷ rest) =
    let later = take_subject name rest in
    if str_eq name c.raw_subject
    then some (c, rest)
    else elim later [ none ↦ none | some (d, others) ↦ some (d, c ∷ others) ]

-- The walk of `leafChain` from `current`; what is used is taken from `rest`, so that its length is
-- enough fuel.
unfoldable pub walk : ℕ → Certificate → List Certificate → List Certificate
walk zero current rest = []
walk (suc fuel) current rest =
    if str_eq current.raw_issuer current.raw_subject
    then []
    else elim (take_subject current.raw_issuer rest) [
      | none ↦ []
      | some (next, others) ↦ next ∷ walk fuel next others
    ]

unfoldable pub leaf_chain : Certificate → List Certificate → List Certificate
leaf_chain leaf rest = leaf ∷ walk (length rest) leaf rest

unfoldable pub earliest_expired : List Certificate → Time → Option Certificate
earliest_expired [] now = none
earliest_expired (c ∷ rest) now = if ltb c.not_after now then some c else earliest_expired rest now

unfoldable pub is_weak : SignatureAlgorithm → Bool
is_weak md2_with_rsa = true
is_weak md5_with_rsa = true
is_weak sha1_with_rsa = true
is_weak dsa_with_sha1 = true
is_weak ecdsa_with_sha1 = true
is_weak _ = false

unfoldable pub weak_signature_cert : List Certificate → Option Certificate
unfolding is_weak
weak_signature_cert [] = none
weak_signature_cert (c ∷ rest) =
    if is_weak c.signature_algorithm && not (str_eq c.raw_issuer c.raw_subject)
    then some c
    else weak_signature_cert rest

unfoldable pub openssl_sig_alg : (SignatureAlgorithm → String) → SignatureAlgorithm → String
openssl_sig_alg name sha256_with_rsa = "SHA-256 with RSA encryption"
openssl_sig_alg name sha384_with_rsa = "SHA-384 with RSA encryption"
openssl_sig_alg name sha512_with_rsa = "SHA-512 with RSA encryption"
openssl_sig_alg name sha1_with_rsa = "SHA-1 with RSA encryption"
openssl_sig_alg name sha256_with_rsa_pss = "SHA-256 with RSA-PSS"
openssl_sig_alg name sha384_with_rsa_pss = "SHA-384 with RSA-PSS"
openssl_sig_alg name sha512_with_rsa_pss = "SHA-512 with RSA-PSS"
openssl_sig_alg name ecdsa_with_sha256 = "ECDSA with SHA-256"
openssl_sig_alg name ecdsa_with_sha384 = "ECDSA with SHA-384"
openssl_sig_alg name ecdsa_with_sha512 = "ECDSA with SHA-512"
openssl_sig_alg name ecdsa_with_sha1 = "ECDSA with SHA-1"
openssl_sig_alg name pure_ed25519 = "Ed25519"
openssl_sig_alg name a = name a

abbrev first_or_empty : List String → String
first_or_empty [] = ""
first_or_empty (s ∷ rest) = s

-- The loop of `certInfo`.
unfoldable pub with_earliest : CertInfo → List Certificate → CertInfo
with_earliest info [] = info
with_earliest info (c ∷ rest) =
    with_earliest
      (if ltb c.not_after info.earliest_not_after
        then record info { earliest_not_after = c.not_after; earliest_subject = c.cn }
        else info)
      rest

unfoldable pub cert_info : (SignatureAlgorithm → String) → Certificate → List Certificate → CertInfo
unfolding with_earliest openssl_sig_alg
cert_info name leaf scope =
    with_earliest
      (record {
        subject = leaf.subject;
        cn = leaf.cn;
        issuer = leaf.issuer;
        issuer_cn = leaf.issuer_cn;
        issuer_org = first_or_empty leaf.issuer_organizations;
        signature_algorithm = openssl_sig_alg name leaf.signature_algorithm;
        sans = leaf.dns_names;
        serial = leaf.serial;
        not_before = leaf.not_before;
        not_after = leaf.not_after;
        earliest_not_after = leaf.not_after;
        earliest_subject = leaf.cn;
      })
      scope

unfoldable pub days_until : (Duration → ℤ) → Time → Time → ℤ
days_until whole_days expiry now =
    if is_zero expiry then pos 0 else whole_days (sub_time expiry now)

-- The certificates that the diagnosis may blame.
abbrev pub scope_of : Certificate → List Certificate → Verification → List Certificate
scope_of leaf rest (chains best others) = best_chain best others
scope_of leaf rest hostname_error = leaf_chain leaf rest
scope_of leaf rest other_error = leaf_chain leaf rest

abbrev pub is_verified : Verification → Bool
is_verified (chains best others) = true
is_verified _ = false

abbrev pub with_diagnosis : String → String → Result → Result
with_diagnosis status severity r = record r { status = status; severity = severity }

-- The result before the diagnosis.
unfoldable pub inspected :
    Library → Target → Certificate → List Certificate → Verification → Time → Result
inspected lib t leaf rest v now =
    let scope = scope_of leaf rest v in
    let r : Result = record {
      target = t;
      status = "";
      severity = "";
      message = "";
      checked_at = zero_time;
      duration = pos 0;
      attempts = 0;
      cert = some (cert_info lib.algorithm_name leaf scope);
      verify_ok = is_verified v;
      verified_not_after = if is_verified v then earliest_not_after scope else zero_time;
      days_left = pos 0;
    } in
    record r { days_left = days_until lib.whole_days (effective_not_after r) now }

abbrev pub trust_diagnosis : Option Certificate → Result → Result
trust_diagnosis none r = with_diagnosis status_invalid severity_emergency r
trust_diagnosis (some weak) r = with_diagnosis status_weak_signature severity_critical r

-- A threshold that is not set is a nil pointer, at which the source panics: `none`.
unfoldable pub threshold_diagnosis : Option ℤ → Option ℤ → Result → Option Result
threshold_diagnosis none warning r = none
threshold_diagnosis (some critical) none r =
    if ltb_ℤ r.days_left critical
    then some (with_diagnosis status_expiring_soon severity_critical r)
    else none
threshold_diagnosis (some critical) (some warning) r =
    if ltb_ℤ r.days_left critical
    then some (with_diagnosis status_expiring_soon severity_critical r)
    else if ltb_ℤ r.days_left warning
    then some (with_diagnosis status_expiring_soon severity_warning r)
    else some (with_diagnosis status_ok severity_ok r)

-- The diagnosis, from whether trust is missing and the first certificate that expired.
unfoldable pub diagnose :
    Target → List Certificate → (distrusted : Bool) → Option Certificate → Result → Option Result
diagnose t peers distrusted (some expired) r =
    some (with_diagnosis status_expired severity_emergency r)
diagnose t peers true none r = some (trust_diagnosis (weak_signature_cert peers) r)
diagnose t peers false none r = threshold_diagnosis t.critical_days t.warning_days r

-- `evaluate`, on a leaf and the other certificates presented.
unfoldable pub evaluate : Library → Target → Certificate → List Certificate → Time → Option Result
evaluate lib t leaf rest now =
    let v = lib.verify t (leaf ∷ rest) now in
    diagnose t (leaf ∷ rest) (not (is_verified v) && not t.insecure)
      (earliest_expired (scope_of leaf rest v) now) (inspected lib t leaf rest v now)
