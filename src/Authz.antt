-- ===== src/Authz.antt =====
-- api/authz/authz.go: roles and the table of authorized clients.
pub mod Laws
use jobmaster.Base.{
  Bool, true, false, not, List, [], ◌∷◌, Option, none, some, Text, codes, text_eq, CaseMap,
  to_lower, to_upper, if◌then◌else◌, map, lookup,
}

-- `Role string` with its three constants.
pub data Role : Type 0 where
  unauthorized admin user : Role

unfoldable pub role_eq : Role → Role → Bool
role_eq unauthorized unauthorized = true
role_eq admin admin = true
role_eq user user = true
role_eq _ _ = false

-- `string(role)`.
unfoldable pub role_str : Role → Text
role_str unauthorized = codes "Unauthorized"
role_str admin = codes "Admin"
role_str user = codes "User"

abbrev pub authorized_clients : List (Text × Role)
authorized_clients =
    (codes "client1", user)
    ∷ (codes "client2", user)
    ∷ (codes "client3", user)
    ∷ (codes "superuser", admin)
    ∷ []

module _ ⦃m : CaseMap⦄ where
  -- The zero value of a missing key is the empty role, which becomes `unauthorized`.
  unfoldable pub is_client_authorized : Text → Bool × Role
  unfolding lookup role_eq
  is_client_authorized name =
      let crole : Role = elim (lookup (to_lower name) authorized_clients) [
        | none ↦ unauthorized
        | some r ↦ r
      ] in
      (not (role_eq crole unauthorized), crole)

  unfoldable pub role_str_to_role : Text → Role
  role_str_to_role s =
      if text_eq (to_upper s) (codes "ADMIN")
      then admin
      else if text_eq (to_upper s) (codes "USER")
      then user
      else unauthorized

unfoldable pub get_authorized_client_names : List Text
get_authorized_client_names = map (λ (e : Text × Role). e.0) authorized_clients

unfoldable pub get_authorized_clients_with_roles : List (Text × Role)
get_authorized_clients_with_roles = authorized_clients
