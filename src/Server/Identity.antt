-- ===== src/Server/Identity.antt =====
-- api/server/validate_client.go: from the certificate of a connection to the client's name and role
-- in the context of a request, and back in the handlers.
pub mod Laws
pub mod RoundTrip
pub mod Admission
use jobmaster.Base.{
  Bool, true, false, not, ◌||◌, List, [], ◌∷◌, Option, none, some, Text, codes, is_nil, is_blank,
  CaseMap, if◌then◌else◌,
}
use jobmaster.Result.{
  Result, ok, err, panic, msg, wrap, status, canceled, unauthenticated, map_err, CtxErr, ◌>>=◌,
  ◌>>◌,
}
use jobmaster.Authz.{Role, unauthorized, role_eq, role_str, is_client_authorized, role_str_to_role}
use jobmaster.Authn.{
  Certificate, validate_cert_crypto_and_validity, get_jobmaster_entity_name_from_cert_cn,
}
use jobmaster.Os.{Env, Io, check_ctx, ◌>>=◌ as bind_io}

-- `peer.AuthInfo`: credentials.TLSInfo with its `PeerCertificates`, or another scheme.
pub data AuthInfo : Type 0 where
  tls : List (Option Certificate) → AuthInfo
  other_scheme : AuthInfo

-- The values of a context that are read: the peer, and those under the two keys of the server.
pub record Context : Type 0 where
  pub peer : Option AuthInfo
  pub client_name : Option Text
  pub client_role : Option Text

module _ ⦃m : CaseMap⦄ where
  -- One round of the loop over the certificates.
  unfoldable pub validate_certificate : Option Certificate → Result (Text × Role)
  validate_certificate none = err (
      status unauthenticated (
        wrap "client certificate validity check error: %s"
          (msg "cannot validate a nil certificate")))
  validate_certificate (some cert) = do
    map_err (λ e. status unauthenticated (wrap "client certificate validity check error: %s" e))
        (validate_cert_crypto_and_validity (some cert))
    name ←
        map_err (λ e. status unauthenticated (wrap "client certificate parse error: %s" e))
          (get_jobmaster_entity_name_from_cert_cn cert)
    let (_, role) = is_client_authorized name
    if role_eq role unauthorized
        then err (status unauthenticated (msg "%s is not authorized"))
        else ok (name, role)

  -- The loop over the certificates; the name and the role are those of the last one.
  unfoldable pub validate_certificates :
      Text × Role → List (Option Certificate) → Result (Text × Role)
  validate_certificates found [] = ok found
  validate_certificates found (item ∷ items) =
      validate_certificate item >>= λ here. validate_certificates here items

  unfoldable pub validate_client_from_tls_info : List (Option Certificate) → Result (Text × Role)
  validate_client_from_tls_info certs = validate_certificates ([], unauthorized) certs

  -- The two `comma ok` tests: with no peer, or another scheme, nothing is found.
  unfoldable pub peer_client : Option AuthInfo → Result (Text × Role)
  peer_client none = ok ([], unauthorized)
  peer_client (some other_scheme) = ok ([], unauthorized)
  peer_client (some (tls certs)) = validate_client_from_tls_info certs

  -- The `default` case of the select in `validateClient`.
  unfoldable pub identify : Context → Result Context
  identify c = do
    (name, role) ← peer_client c.peer
    if is_nil name || role_eq role unauthorized
        then err (status unauthenticated (msg "did not find an authorized client"))
        else ok (record c { client_name = some name; client_role = some (role_str role) })

  unfoldable pub validate_client : Env → Context → Io Context
  validate_client env c log = elim (env.ctx_err log) [
    | some e ↦ (err (status canceled (msg "interceptor: context was canceled")), check_ctx ∷ log)
    | none ↦ (identify c, check_ctx ∷ log)
  ]

  -- A type assertion on a key that is not there panics.
  assert_string : Option Text → Result Text
  assert_string none = panic "interface conversion: interface {} is nil, not string"
  assert_string (some s) = ok s

  check_role : Text → Role → Text → Result (Text × Text)
  check_role name crole role_text =
      if is_blank role_text
      then err (msg "client role in context is empty")
      else if role_eq (role_str_to_role role_text) unauthorized
      then err (msg "client %q context role is 'Unauthorized'")
      else if not (role_eq (role_str_to_role role_text) crole)
      then err (msg "client role mismatch")
      else ok (name, role_text)

  unfoldable pub client_info_from_context : Context → Result (Text × Text)
  unfolding assert_string check_role
  client_info_from_context c = do
    name ← assert_string c.client_name
    if is_blank name
        then err (msg "client name in context is empty")
        else if not (is_client_authorized name).0
        then err (msg "client %q is not authorized")
        else (do
          role_text ← assert_string c.client_role
          check_role name (is_client_authorized name).1 role_text)

  -- The interceptor of the unary RPCs, round any handler.
  unfoldable pub validate_client_unary_interceptor {ℓ κ} :
      {Req : Type ℓ} {Resp : Type κ} → Env → Context → Req → (Context → Req → Io Resp) → Io Resp
  validate_client_unary_interceptor env c req handler =
      bind_io (validate_client env c) (λ c'. handler c' req)

  -- The interceptor of the streaming RPC. The wrapped stream is the stream with the new context.
  unfoldable pub validate_client_stream_interceptor :
      Env → Context → (Context → Io (Unit {0})) → Io (Unit {0})
  validate_client_stream_interceptor env c handler =
      bind_io (validate_client env c) (λ c'. handler c')
