-- ===== src/Server/Identity/Admission.antt =====
-- The interceptors admit only validated clients (api/server/validate_client.go).
use jobmaster.Base.{
  ◌≡◌, refl, ◌⊎◌, inl, inr, Option-cases, List, [], ◌∷◌, arith, Option, none, some, Text, CaseMap,
}
use jobmaster.Result.{
  status, canceled, msg, Result, ok, err, panic, hang, Error, IsReturn, bind-IsReturn,
}
use jobmaster.Os.{Env, Io, Log, check_ctx}
use jobmaster.Authz.{Role, unauthorized, role_str}
use jobmaster.Authn.{
  Certificate, validate_cert_crypto_and_validity, get_jobmaster_entity_name_from_cert_cn,
}
use jobmaster.Server.Identity.{
  AuthInfo, tls, other_scheme, Context, validate_certificate, validate_certificates,
  validate_client_from_tls_info, peer_client, identify, validate_client, client_info_from_context,
  validate_client_unary_interceptor, validate_client_stream_interceptor,
}
use jobmaster.Server.Identity.Laws.{Chain, Chain-Shows, identify_iff}
use jobmaster.Server.Identity.RoundTrip.{KeepsSpaces, client_info_of_Shows}

entity_name-IsReturn : (cert : Certificate) → IsReturn (get_jobmaster_entity_name_from_cert_cn cert)
unfolding get_jobmaster_entity_name_from_cert_cn
entity_name-IsReturn cert = ground arith

crypto-IsReturn : (cert : Option Certificate) → IsReturn (validate_cert_crypto_and_validity cert)
unfolding validate_cert_crypto_and_validity
crypto-IsReturn none = tt
crypto-IsReturn (some cert) = ground arith

module _ ⦃m : CaseMap⦄ where
  validate_certificate-IsReturn : (cert : Option Certificate) → IsReturn (validate_certificate cert)
  unfolding validate_certificate
  validate_certificate-IsReturn none = tt
  validate_certificate-IsReturn (some cert) =
      ground (arith, entity_name-IsReturn cert, crypto-IsReturn (some cert))

  validate_certificates-IsReturn :
      (found : Text × Role) (certs : List (Option Certificate))
      → IsReturn (validate_certificates found certs)
  unfolding validate_certificates
  validate_certificates-IsReturn found [] = tt
  validate_certificates-IsReturn found (cert ∷ certs) =
      bind-IsReturn (validate_certificate cert) _ (validate_certificate-IsReturn cert)
        (λ here. validate_certificates-IsReturn here certs)

  peer_client-IsReturn : (p : Option AuthInfo) → IsReturn (peer_client p)
  unfolding peer_client validate_client_from_tls_info
  peer_client-IsReturn none = tt
  peer_client-IsReturn (some other_scheme) = tt
  peer_client-IsReturn (some (tls certs)) = validate_certificates-IsReturn ([], unauthorized) certs

  identify-IsReturn : (c : Context) → IsReturn (identify c)
  unfolding identify
  identify-IsReturn c =
      bind-IsReturn (peer_client c.peer) _ (peer_client-IsReturn c.peer) (λ p. ground arith)

  -- What a handler is given: the context of a validated client, from which it reads back the name
  -- and the role that the connection's certificates show.
  pub record IsAdmitted (env : Env) (c : Context) (log : Log) (c' : Context) : Type 0 where
    pub certs : List (Option Certificate)
    pub name : Text
    pub role : Role
    pub live : env.ctx_err log ≡ none
    pub by_tls : c.peer ≡ some (tls certs)
    pub chain : Chain certs name role
    pub info : client_info_from_context c' ≡ ok (name, role_str role)

  module _ (keeps : KeepsSpaces m) (env : Env) (c : Context) where
    identify_cases :
        (log : Log)
        → env.ctx_err log ≡ none
        → ((c' : Context) × (identify c ≡ ok c') × IsAdmitted env c log c')
          ⊎ ((e : Error) × (identify c ≡ err e))
    identify_cases log live = go (identify c) refl (identify-IsReturn c)
      where
        go :
            (r : Result Context)
            → identify c ≡ r
            → IsReturn r
            → ((c' : Context) × (identify c ≡ ok c') × IsAdmitted env c log c')
              ⊎ ((e : Error) × (identify c ≡ err e))
        go (ok c') e h =
            let (certs, name, role, by_tls, chain, same) = (identify_iff c c').0 e in
            let (cert, shown) = Chain-Shows chain in
            inl (
              c',
              e,
              record {
                certs = certs;
                name = name;
                role = role;
                live = live;
                by_tls = by_tls;
                chain = chain;
                info =
                    rw same (client_info_of_Shows keeps c name role shown.listed shown.authorized);
              },
            )
        go (err e') e h = inr (e', e)
        go (panic s) e h = absurd h
        go hang e h = absurd h

    -- A unary RPC's handler runs only in the context of an admitted client; in every other case the
    -- interceptor returns an error and the handler is not called.
    pub validate_client_unary_interceptor_lem {ℓ κ} :
        {Req : Type ℓ} {Resp : Type κ} (req : Req) (handler : Context → Req → Io Resp) (log : Log)
        → ((c' : Context) × IsAdmitted env c log c'
            × (validate_client_unary_interceptor env c req handler log
                ≡ handler c' req (check_ctx ∷ log)))
          ⊎ ((e : Error) × (validate_client_unary_interceptor env c req handler log
                ≡ (err e, check_ctx ∷ log)))
    unfolding validate_client_unary_interceptor validate_client
    validate_client_unary_interceptor_lem req handler log = elim (Option-cases (env.ctx_err log)) [
      | inr (e, done) ↦
          inr (status canceled (msg "interceptor: context was canceled"), ground arith)
      | inl live ↦ elim (identify_cases log live) [
        | inl (c', e, admitted) ↦ inl (c', admitted, ground arith)
        | inr (e', e) ↦ inr (e', ground arith)
      ]
    ]

    -- The streaming RPC's handler runs only in the context of an admitted client; in every other case
    -- the interceptor returns an error and the handler is not called.
    pub validate_client_stream_interceptor_lem :
        (handler : Context → Io (Unit {0})) (log : Log)
        → ((c' : Context) × IsAdmitted env c log c'
            × (validate_client_stream_interceptor env c handler log ≡ handler c' (check_ctx ∷ log)))
          ⊎ ((e : Error) × (validate_client_stream_interceptor env c handler log
                ≡ (err e, check_ctx ∷ log)))
    unfolding validate_client_stream_interceptor validate_client
    validate_client_stream_interceptor_lem handler log = elim (Option-cases (env.ctx_err log)) [
      | inr (e, done) ↦
          inr (status canceled (msg "interceptor: context was canceled"), ground arith)
      | inl live ↦ elim (identify_cases log live) [
        | inl (c', e, admitted) ↦ inl (c', admitted, ground arith)
        | inr (e', e) ↦ inr (e', ground arith)
      ]
    ]
