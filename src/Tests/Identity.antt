-- ===== src/Tests/Identity.antt =====
-- Authentication and authorization at concrete inputs.
use jobmaster.Base.{
  ◌≡◌, refl, ◌↔◌, ◌⊎◌, inl, true, List, [], ◌∷◌, Option, some, Text, codes, to_lower, text_eq,
}
use jobmaster.Result.{ok, err, Error}
use jobmaster.Os.{Io, check_ctx, return}
use jobmaster.Authz.{Role, user, admin, role_str, role_str_to_role, is_client_authorized}
use jobmaster.Authz.Laws.{HasRole, is_client_authorized-HasRole, role_str_to_role-role_str}
use jobmaster.Authn.{Certificate}
use jobmaster.Server.Identity.{
  Context, tls, identify, client_info_from_context, validate_client_unary_interceptor,
}
use jobmaster.Server.Identity.Laws.{Chain, identify_iff}
use jobmaster.Server.Identity.RoundTrip.{client_info_of_Shows}
use jobmaster.Server.Identity.Admission.{IsAdmitted, validate_client_unary_interceptor_lem}
use jobmaster.Tests.World.{ascii, calm, connected, keeps}

mixed_case : is_client_authorized (codes "SuperUser") ≡ (true, admin)
unfolding is_client_authorized to_lower text_eq
mixed_case = refl

is_client_authorized-HasRole_example :
    ((is_client_authorized (codes "Client1")).1 ≡ user) ↔ HasRole user (to_lower (codes "Client1"))
is_client_authorized-HasRole_example = is_client_authorized-HasRole (codes "Client1") user

role_str_to_role-role_str_example : role_str_to_role (role_str admin) ≡ admin
role_str_to_role-role_str_example = role_str_to_role-role_str admin

identify_iff_example :
    (identify connected
      ≡ ok (record connected {
        client_name = some (codes "Client1");
        client_role = some (codes "User");
      }))
    ↔ ((certs : List (Option Certificate)) × (name : Text) × (role : Role) × (connected.peer
          ≡ some (tls certs))
        × Chain certs name role
        × (record connected {
          client_name = some (codes "Client1");
          client_role = some (codes "User");
        }
            ≡ record connected { client_name = some name; client_role = some (role_str role) }))
identify_iff_example = identify_iff connected _

client_info_of_Shows_example :
    client_info_from_context (record connected {
      client_name = some (codes "Client1");
      client_role = some (role_str user);
    })
    ≡ ok (codes "Client1", role_str user)
unfolding to_lower
client_info_of_Shows_example =
    client_info_of_Shows keeps connected (codes "Client1") user (inl refl) (λ e. cc)

abbrev echo : Context → Text → Io Text
echo c req = return req

unary_example :
    ((c' : Context) × IsAdmitted calm connected [] c'
      × (validate_client_unary_interceptor calm connected (codes "req") echo []
          ≡ echo c' (codes "req") (check_ctx ∷ [])))
    ⊎ ((e : Error) × (validate_client_unary_interceptor calm connected (codes "req") echo []
          ≡ (err e, check_ctx ∷ [])))
unary_example = validate_client_unary_interceptor_lem keeps calm connected (codes "req") echo []
