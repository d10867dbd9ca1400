-- ===== src/Client/Main/Config.antt =====
-- Which files the client loads (cmd/client/main.go, api/client/client.go).
use jobmaster.Base.{◌≡◌, subst, sym, arith, ap, true, ◌++◌, Text, codes, All}
use jobmaster.FilePath.{FilePath, clean, join}
use jobmaster.FilePath.Laws.{IsName, join-name}
use jobmaster.FilePath.RoundTrip.{clean-path_text}
use jobmaster.Client.Connection.{client_cert_file, client_key_file}
use jobmaster.Client.Main.{client_config}

ca-IsName : IsName (codes "server_ca_cert.pem")
ca-IsName = ground arith

-- Under a rooted directory of plain components, the client named by the command line loads
-- `<name>_cert.pem` and `<name>_key.pem` of that directory, and trusts its `server_ca_cert.pem`.
pub client_config-files :
    (dir : FilePath) (name : Text)
    → dir.rooted ≡ true
    → All IsName dir.parts
    → (client_cert_file (client_config dir name) ≡ join dir (name ++ codes "_cert.pem"))
      × (client_key_file (client_config dir name) ≡ join dir (name ++ codes "_key.pem"))
      × (clean (client_config dir name).server_ca_cert_file ≡ join dir (codes "server_ca_cert.pem"))
unfolding client_config client_cert_file client_key_file
client_config-files dir name rooted names =
    let ca = join-name dir (codes "server_ca_cert.pem") ca-IsName in
    let same = clean-path_text dir rooted names in
    (
      ap (λ d. join d (name ++ codes "_cert.pem")) same,
      ap (λ d. join d (name ++ codes "_key.pem")) same,
      clean-path_text (join dir (codes "server_ca_cert.pem"))
          (subst (λ q. q.rooted ≡ true) (sym ca) rooted)
          (subst (λ q. All IsName q.parts) (sym ca) (ca-IsName, names)),
    )
