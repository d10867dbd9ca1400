-- ===== src/Authn.antt =====
-- api/authn/authn.go: what a certificate must be, and the name that it carries.
pub mod Laws
use jobmaster.Base.{
  Bool, true, false, ◌||◌, not, List, [], ◌∷◌, ◌++◌, Option, none, some, String, Text, codes,
  text_eq, is_blank, strip_prefix, if◌then◌else◌,
}
use jobmaster.Result.{Result, ok, err, msg, ◌>>=◌}

-- The fields of *x509.Certificate that are read. An algorithm stands by the string that its
-- `String` method gives; crypto/x509 makes those strings.
pub record Certificate : Type 0 where
  pub signature_algorithm : Text
  pub public_key_algorithm : Text
  pub common_name : Text

-- slices.Contains.
unfoldable pub contains : List Text → Text → Bool
contains [] t = false
contains (s ∷ ss) t = text_eq s t || contains ss t

-- The strings of x509.ECDSAWithSHA256, x509.ECDSAWithSHA384 and x509.ECDSAWithSHA512.
abbrev pub allowed_x509_sig_algos : List Text
allowed_x509_sig_algos = codes "ECDSA-SHA256" ∷ codes "ECDSA-SHA384" ∷ codes "ECDSA-SHA512" ∷ []

-- The string of x509.ECDSA.
abbrev pub allowed_x509_pk_algos : List Text
allowed_x509_pk_algos = codes "ECDSA" ∷ []

abbrev pub jobmaster_entity_cn_prefix : Text
jobmaster_entity_cn_prefix = codes "jobmaster-"

unfoldable pub validate_cert_crypto_and_validity : Option Certificate → Result (Unit {0})
validate_cert_crypto_and_validity none = err (msg "cannot validate a nil certificate")
validate_cert_crypto_and_validity (some cert) =
    if not (contains allowed_x509_sig_algos cert.signature_algorithm)
    then err (msg "certificate signature algorithm %q is not permitted")
    else if not (contains allowed_x509_pk_algos cert.public_key_algorithm)
    then err (msg "certificate public key algorithm %q is not permitted")
    else ok tt

unfoldable pub get_cert_common_name : Certificate → Result Text
get_cert_common_name cert =
    if is_blank cert.common_name
    then err (msg "certicate CN attribute is empty")
    else ok cert.common_name

-- `HasPrefix` and `TrimPrefix` are the two cases of `strip_prefix`.
entity_name : Text → Result Text
entity_name cn = elim (strip_prefix jobmaster_entity_cn_prefix cn) [
  | none ↦ err (msg "certificate invalid: Does not contain expected CN prefix")
  | some [] ↦ err (msg "certificate invalid: Does not contain expected CN field part")
  | some (c ∷ s) ↦ ok (c ∷ s)
]

unfoldable pub get_jobmaster_entity_name_from_cert_cn : Certificate → Result Text
unfolding entity_name get_cert_common_name
get_jobmaster_entity_name_from_cert_cn cert = do cn ← get_cert_common_name cert; entity_name cn
