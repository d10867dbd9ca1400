-- ===== src/Authn/Laws.antt =====
-- Which certificates are accepted, and the name that is read from one (api/authn/authn.go).
use jobmaster.Base.{
  OneOf, ◌≡◌, ◌↔◌, ◌⊎◌, ◌≢◌, true, false, some, List, [], ◌∷◌, ◌++◌, arith, Text, text_eq_iff,
  is_blank, is_space, is_blank_iff, IsSpaces, Bool-cases, strip_prefix_iff,
}
use jobmaster.Result.{ok}
use jobmaster.Authn.{
  Certificate, contains, allowed_x509_sig_algos, allowed_x509_pk_algos, jobmaster_entity_cn_prefix,
  validate_cert_crypto_and_validity, get_cert_common_name, get_jobmaster_entity_name_from_cert_cn,
  entity_name,
}

contains_iff : (ss : List Text) (t : Text) → (contains ss t ≡ true) ↔ OneOf ss t
unfolding contains
contains_iff [] t = ground arith
contains_iff (s ∷ ss) t = ground (arith, text_eq_iff s t, contains_iff ss t)

-- A certificate passes the check exactly when its signature is ECDSA with SHA-256, SHA-384 or
-- SHA-512 and its key is ECDSA.
pub validate_cert_crypto_and_validity-eq-ok_iff :
    (cert : Certificate)
    → (validate_cert_crypto_and_validity (some cert) ≡ ok tt) ↔ (
        OneOf allowed_x509_sig_algos cert.signature_algorithm
        × OneOf allowed_x509_pk_algos cert.public_key_algorithm)
unfolding validate_cert_crypto_and_validity
validate_cert_crypto_and_validity-eq-ok_iff cert = ground (
  arith,
  contains_iff allowed_x509_sig_algos cert.signature_algorithm,
  contains_iff allowed_x509_pk_algos cert.public_key_algorithm,
)

entity_name_iff :
    (cn name : Text)
    → (entity_name cn ≡ ok name) ↔ ((cn ≡ jobmaster_entity_cn_prefix ++ name) × (name ≢ []))
unfolding entity_name
entity_name_iff cn name = ground (arith, strip_prefix_iff jobmaster_entity_cn_prefix cn name)

-- A common name with the prefix is not blank.
blank_cases :
    (s : Text) → ((is_blank s ≡ true) ↔ IsSpaces s) × ((is_blank s ≡ true) ⊎ (is_blank s ≡ false))
blank_cases s = (is_blank_iff s, Bool-cases (is_blank s))

-- The name is read exactly when the common name is the prefix "jobmaster-" with the name behind
-- it, and the name is not empty.
pub get_jobmaster_entity_name_iff :
    (cert : Certificate) (name : Text)
    → (get_jobmaster_entity_name_from_cert_cn cert ≡ ok name)
      ↔ ((cert.common_name ≡ jobmaster_entity_cn_prefix ++ name) × (name ≢ []))
unfolding get_jobmaster_entity_name_from_cert_cn get_cert_common_name is_space
get_jobmaster_entity_name_iff cert name =
    ground (arith, blank_cases cert.common_name, entity_name_iff cert.common_name name)
