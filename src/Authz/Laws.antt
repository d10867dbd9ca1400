-- ===== src/Authz/Laws.antt =====
-- Who is authorized, and in which role (api/authz/authz.go).
use jobmaster.Base.{
  ◌≡◌, refl, ◌↔◌, ◌⊎◌, ◌≢◌, true, arith, Text, codes, text_eq, text_eq_iff, CaseMap, to_lower,
  to_upper,
}
use jobmaster.Authz.{
  Role, unauthorized, admin, user, role_eq, role_str, is_client_authorized, role_str_to_role,
}

-- The lower-case names that have the role.
abbrev pub HasRole : Role → Text → Type 0
HasRole admin s = s ≡ codes "superuser"
HasRole user s = (s ≡ codes "client1") ⊎ (s ≡ codes "client2") ⊎ (s ≡ codes "client3")
HasRole unauthorized s =
    (s ≢ codes "client1") × (s ≢ codes "client2") × (s ≢ codes "client3") × (s ≢ codes "superuser")

names :
    (s : Text)
    → ((text_eq (codes "client1") s ≡ true) ↔ (codes "client1" ≡ s))
      × ((text_eq (codes "client2") s ≡ true) ↔ (codes "client2" ≡ s))
      × ((text_eq (codes "client3") s ≡ true) ↔ (codes "client3" ≡ s))
      × ((text_eq (codes "superuser") s ≡ true) ↔ (codes "superuser" ≡ s))
names s = (text_eq_iff _ s, text_eq_iff _ s, text_eq_iff _ s, text_eq_iff _ s)

module _ ⦃m : CaseMap⦄ where
  -- A name has a role exactly when its lower-case form is one of that role's names; it is unauthorized
  -- exactly when its lower-case form is none of the four names.
  pub is_client_authorized-HasRole :
      (name : Text) (r : Role) → ((is_client_authorized name).1 ≡ r) ↔ HasRole r (to_lower name)
  unfolding is_client_authorized
  is_client_authorized-HasRole name admin = ground (arith, names (to_lower name))
  is_client_authorized-HasRole name user = ground (arith, names (to_lower name))
  is_client_authorized-HasRole name unauthorized = ground (arith, names (to_lower name))

  -- The flag is the role's.
  pub is_client_authorized_flag :
      (name : Text)
      → ((is_client_authorized name).0 ≡ true) ↔ ((is_client_authorized name).1 ≢ unauthorized)
  unfolding is_client_authorized
  is_client_authorized_flag name = ground arith

  pub role_str_to_role-role_str : (r : Role) → role_str_to_role (role_str r) ≡ r
  unfolding role_str_to_role role_str text_eq to_upper
  role_str_to_role-role_str unauthorized = refl
  role_str_to_role-role_str admin = refl
  role_str_to_role-role_str user = refl

pub role_eq_iff : (a b : Role) → (role_eq a b ≡ true) ↔ (a ≡ b)
unfolding role_eq
role_eq_iff a b = ground arith
