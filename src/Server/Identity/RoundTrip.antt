-- ===== src/Server/Identity/RoundTrip.antt =====
-- The interceptors let a handler run only in a context from which it reads the validated client
-- (api/server/validate_client.go).
use jobmaster.Base.{
  ℕ, ◌≡◌, refl, ◌⊎◌, ◌≢◌, true, false, [], ◌∷◌, arith, some, Text, is_blank, is_blank_iff, is_space,
  text_eq, trim_space, trim_left, CaseMap, rune_lower, to_lower,
}
use jobmaster.Result.{ok}
use jobmaster.Authz.{Role, unauthorized, admin, user, role_str}
use jobmaster.Authz.Laws.{
  HasRole, is_client_authorized-HasRole, role_eq_iff, role_str_to_role-role_str,
  is_client_authorized_flag,
}
use jobmaster.Server.Identity.{Context, client_info_from_context}

-- No white space has another lower case (unicode.ToLower).
abbrev pub KeepsSpaces : CaseMap → Type 0
KeepsSpaces m = (c : ℕ) → is_space c ≡ true → m.lower c ≡ c

module _ ⦃m : CaseMap⦄ (keeps : KeepsSpaces m) where
  rune_lower_of_space : (c : ℕ) → is_space c ≡ true → rune_lower c ≡ c
  unfolding rune_lower is_space
  rune_lower_of_space c h = ground (arith, keeps c h)

  letter-not-space : (c : ℕ) → (rune_lower c ≡ b'c') ⊎ (rune_lower c ≡ b's') → is_space c ≡ false
  unfolding is_space
  letter-not-space c h = ground (arith, rune_lower_of_space c)

  first_letter :
      (c : ℕ) (s : Text) (r : Role)
      → HasRole r (to_lower (c ∷ s))
      → r ≢ unauthorized
      → (rune_lower c ≡ b'c') ⊎ (rune_lower c ≡ b's')
  unfolding to_lower
  first_letter c s admin h a = ground arith
  first_letter c s user h a = ground arith
  first_letter c s unauthorized h a = absurd (a refl)

  nil_unlisted : (r : Role) → HasRole r (to_lower []) → r ≡ unauthorized
  unfolding to_lower
  nil_unlisted admin h = ground arith
  nil_unlisted user h = ground arith
  nil_unlisted unauthorized h = refl

  authorized-not-blank :
      (name : Text) (r : Role)
      → HasRole r (to_lower name)
      → r ≢ unauthorized
      → is_blank name ≡ false
  authorized-not-blank [] r h a = absurd (a (nil_unlisted r h))
  authorized-not-blank (c ∷ s) r h a =
      ground (arith, is_blank_iff (c ∷ s), letter-not-space c (first_letter c s r h a))

  role_str-not-blank : (r : Role) → is_blank (role_str r) ≡ false
  unfolding is_blank role_str text_eq trim_space trim_left is_space
  role_str-not-blank unauthorized = refl
  role_str-not-blank admin = refl
  role_str-not-blank user = refl

  -- From a context that holds a name with an authorized role, and the text of that role, a handler reads
  -- back this name and this text.
  pub client_info_of_Shows :
      (c : Context) (name : Text) (role : Role)
      → HasRole role (to_lower name)
      → role ≢ unauthorized
      → client_info_from_context
          (record c { client_name = some name; client_role = some (role_str role) })
        ≡ ok (name, role_str role)
  unfolding client_info_from_context
  client_info_of_Shows c name role h a = rw (authorized-not-blank name role h a) (
      ground (
        arith,
        role_str-not-blank role,
        role_str_to_role-role_str role,
        role_eq_iff role unauthorized,
        role_eq_iff role role,
        is_client_authorized-HasRole name role,
        is_client_authorized_flag name,
      ))
