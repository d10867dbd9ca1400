-- ===== src/Client/Connection/Laws.antt =====
-- When the client is connected (api/client/client.go).
use jobmaster.Base.{
  ◌≡◌, ◌↔◌, inl, inr, Sum-cases, is_nil-eq-false, ◌≢◌, true, [], ◌∷◌, ◌++◌, arith, none, Text,
  codes,
}
use jobmaster.Result.{ok}
use jobmaster.FilePath.{clean}
use jobmaster.Os.{Env, Log, load_key_pair, read_text, dial}
use jobmaster.Client.Connection.{
  ClientConfig, ClientConn, client_cert_file, client_key_file, load_tls_config_for_client, connect,
  new_client,
}

-- No field is the empty string.
abbrev pub IsFull : ClientConfig → Type 0
IsFull cc =
    (cc.client_name ≢ [])
    × (cc.client_cert_path_prefix ≢ [])
    × (cc.server_name ≢ [])
    × (cc.server_port ≢ [])
    × (cc.server_ca_cert_file ≢ [])

abbrev pub address : ClientConfig → Text
address cc = cc.server_name ++ codes ":" ++ cc.server_port

-- What the client trusts: certificates signed by the CA, over TLS 1.3.
abbrev pub strict_client : ClientConfig → Text → ClientConn
strict_client cc cas = record {
  target = address cc;
  creds = record {
    certificate = client_cert_file cc;
    root_cas = cas;
    min_version = 0x0304;
    max_version = 0x0304;
  };
}

module _ (env : Env) (log : Log) where
  abbrev pub pair_loaded : ClientConfig → Log
  pair_loaded cc = load_key_pair (client_cert_file cc) (client_key_file cc) ∷ log

  abbrev pub Connects : ClientConfig → ClientConn → Log → Type 0
  Connects cc conn log' =
      (cas : Text) × (env.key_pair_err log ≡ none)
      × (env.text_of (pair_loaded cc) ≡ inr cas)
      × (env.has_certificates cas ≡ true)
      × (env.dial_err (read_text (clean cc.server_ca_cert_file) ∷ pair_loaded cc) ≡ none)
      × (conn ≡ strict_client cc cas)
      × (log' ≡ dial (address cc) ∷ read_text (clean cc.server_ca_cert_file) ∷ pair_loaded cc)

  connect-eq-ok :
      (cc : ClientConfig) (conn : ClientConn) (log' : Log)
      → (connect env cc log ≡ (ok conn, log')) ↔ Connects cc conn log'
  unfolding connect load_tls_config_for_client
  connect-eq-ok cc conn log' = (
    λ h. elim (Sum-cases (env.text_of (pair_loaded cc))) [
      | inl (e, failed) ↦ absurd (ground arith)
      | inr (cas, read) ↦
          (cas, ground arith, read, ground arith, ground arith, ground arith, ground arith)
    ],
    λ (cas, pair, read, some_cert, dialled, e, calls). ground arith,
  )

  -- A client is connected exactly when no field of the configuration is empty, its certificate and key
  -- under the prefix load, the file of the server's CA holds a certificate and the connection is made;
  -- it accepts only certificates signed by that CA, over TLS 1.3; the calls are these, in this order.
  pub new_client-eq-ok :
      (cc : ClientConfig) (conn : ClientConn) (log' : Log)
      → (new_client env cc log ≡ (ok conn, log')) ↔ (IsFull cc × Connects cc conn log')
  unfolding new_client
  new_client-eq-ok cc conn log' = ground (
    arith,
    is_nil-eq-false cc.client_name,
    is_nil-eq-false cc.client_cert_path_prefix,
    is_nil-eq-false cc.server_name,
    is_nil-eq-false cc.server_port,
    is_nil-eq-false cc.server_ca_cert_file,
    connect-eq-ok cc conn log',
  )
