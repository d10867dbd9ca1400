-- ===== src/Server/Identity/Laws.antt =====
-- What the server knows of a client that it lets through (api/server/validate_client.go).
use jobmaster.Base.{
  is_nil-eq-false, OneOf, ◌≡◌, refl, sym, ap, ◌∙◌, ◌↔◌, ◌⊎◌, inl, inr, ◌≢◌, List, [], ◌∷◌, ◌++◌,
  arith, Option, none, some, Text, CaseMap, to_lower,
}
use jobmaster.Result.{ok, >>=-eq-ok}
use jobmaster.Authz.{Role, unauthorized, role_str, is_client_authorized}
use jobmaster.Authz.Laws.{HasRole, is_client_authorized-HasRole, role_eq_iff}
use jobmaster.Authn.{
  Certificate, jobmaster_entity_cn_prefix, allowed_x509_sig_algos, allowed_x509_pk_algos,
}
use jobmaster.Authn.Laws.{
  validate_cert_crypto_and_validity-eq-ok_iff, get_jobmaster_entity_name_iff,
}
use jobmaster.Server.Identity.{
  AuthInfo, tls, other_scheme, Context, validate_certificate, validate_certificates,
  validate_client_from_tls_info, peer_client, identify,
}

module _ ⦃m : CaseMap⦄ where
  -- A certificate that shows the name and the role.
  pub record Shows (cert : Certificate) (name : Text) (role : Role) : Type 0 where
    pub signature : OneOf allowed_x509_sig_algos cert.signature_algorithm
    pub key : OneOf allowed_x509_pk_algos cert.public_key_algorithm
    pub subject : cert.common_name ≡ jobmaster_entity_cn_prefix ++ name
    pub named : name ≢ []
    pub listed : HasRole role (to_lower name)
    pub authorized : role ≢ unauthorized

  validate_certificate-some :
      (cert : Certificate) (name : Text) (role : Role)
      → (validate_certificate (some cert) ≡ ok (name, role)) ↔ Shows cert name role
  unfolding validate_certificate
  validate_certificate-some cert name role = ground (
    arith,
    validate_cert_crypto_and_validity-eq-ok_iff cert,
    get_jobmaster_entity_name_iff cert name,
    is_client_authorized-HasRole name role,
    role_eq_iff (is_client_authorized name).1 unauthorized,
  )

  -- Every certificate shows a client, and the last one shows the name and the role.
  pub data Chain : List (Option Certificate) → Text → Role → Type 0 where
    last :
        {cert : Certificate} {name : Text} {role : Role}
        → Shows cert name role
        → Chain (some cert ∷ []) name role
    more :
        {cert : Certificate} {items : List (Option Certificate)} {n name : Text} {r role : Role}
        → Shows cert n r
        → Chain items name role
        → Chain (some cert ∷ items) name role

  validate_certificates-none :
      (found : Text × Role) (items : List (Option Certificate)) (r : Text × Role)
      → validate_certificates found (none ∷ items) ≢ ok r
  unfolding validate_certificates validate_certificate
  validate_certificates-none found items r h = cc

  validate_certificates_sound :
      (items : List (Option Certificate)) (found : Text × Role) (name : Text) (role : Role)
      → validate_certificates found items ≡ ok (name, role)
      → ((items ≡ []) × (found ≡ (name, role))) ⊎ Chain items name role
  unfolding validate_certificates
  validate_certificates_sound [] found name role h = ground arith
  validate_certificates_sound (none ∷ items) found name role h =
      absurd (validate_certificates-none found items (name, role) h)
  validate_certificates_sound (some cert ∷ items) found name role h =
      let ((n, r), here, rest) = >>=-eq-ok (validate_certificate (some cert)) _ h in
      let shown = (validate_certificate-some cert n r).0 here in
      elim (validate_certificates_sound items (n, r) name role rest) [
        | inl (e, same) ↦
            inr (rw e (last ((validate_certificate-some cert name role).0 (here ∙ ap ok same))))
        | inr c ↦ inr (more shown c)
      ]

  validate_certificates_complete :
      {items : List (Option Certificate)} {name : Text} {role : Role} (found : Text × Role)
      → Chain items name role
      → validate_certificates found items ≡ ok (name, role)
  unfolding validate_certificates
  validate_certificates_complete found (last {cert} s) =
      rw ((validate_certificate-some cert _ _).1 s) refl
  validate_certificates_complete found (more {cert} {n} {r} s c) =
      rw ((validate_certificate-some cert n r).1 s) (validate_certificates_complete (n, r) c)

  pub Chain-Shows :
      {items : List (Option Certificate)} {name : Text} {role : Role}
      → Chain items name role
      → (cert : Certificate) × Shows cert name role
  Chain-Shows (last {cert} s) = (cert, s)
  Chain-Shows (more s c) = Chain-Shows c

  peer_client_sound :
      (p : Option AuthInfo) (name : Text) (role : Role)
      → peer_client p ≡ ok (name, role)
      → name ≢ []
      → (certs : List (Option Certificate)) × (p ≡ some (tls certs)) × Chain certs name role
  unfolding peer_client validate_client_from_tls_info
  peer_client_sound none name role h n = absurd (ground arith)
  peer_client_sound (some other_scheme) name role h n = absurd (ground arith)
  peer_client_sound (some (tls certs)) name role h n =
      elim (validate_certificates_sound certs ([], unauthorized) name role h) [
        | inl (e, same) ↦ absurd (n (sym (ap (λ (p : Text × Role). p.0) same)))
        | inr c ↦ (certs, refl, c)
      ]

  peer_client_complete :
      (certs : List (Option Certificate)) (name : Text) (role : Role)
      → Chain certs name role
      → peer_client (some (tls certs)) ≡ ok (name, role)
  unfolding peer_client validate_client_from_tls_info
  peer_client_complete certs name role c = validate_certificates_complete ([], unauthorized) c

  -- The context is extended exactly when the peer came by TLS, every certificate of its chain is
  -- acceptable and shows an authorized client; the two new values are the last one's name and role.
  pub identify_iff :
      (c c' : Context)
      → (identify c ≡ ok c') ↔ (
          (certs : List (Option Certificate)) × (name : Text) × (role : Role) × (c.peer
            ≡ some (tls certs))
          × Chain certs name role
          × (c' ≡ record c { client_name = some name; client_role = some (role_str role) }))
  unfolding identify
  identify_iff c c' = (
    λ h.
        let ((n, r), here, rest) = >>=-eq-ok (peer_client c.peer) _ h in
        let (certs, e, chain) = peer_client_sound c.peer n r here (ground arith) in
        (certs, n, r, e, chain, ground arith),
    λ (certs, name, role, e, chain, same).
        let (cert, shown) = Chain-Shows chain in
        rw (e, peer_client_complete certs name role chain)
          (ground (
            arith,
            is_nil-eq-false name shown.named,
            role_eq_iff role unauthorized,
            shown.authorized,
          )),
  )
