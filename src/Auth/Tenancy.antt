-- ===== src/Auth/Tenancy.antt =====
-- The tenant of a request comes from its credential (auth/token.py, `verify_auth_token`).
use async_gate.Prelude.{
  ◌≡◌, refl, Bool, true, false, Option, none, some, String, if◌then◌else◌, arith, get_or, [], ◌∷◌,
  prepend,
}
use async_gate.Models.Json.{Json}
use async_gate.Models.Auth.{User, AuthType, AuthContext, Claims}
use async_gate.Store.{Store, M, Out, ok, err, ◌>>=◌, gets, or_raise, unauthorized}
use async_gate.Auth.Keys.{verify_request_api_key}
use async_gate.Auth.Token.{
  claims_other, resolve_tenant, load_jwt_key, accept_claims, verify_jwt, accept_user, verify_db_key,
  compare_digest, verify_legacy, verify_token, verify_auth_token,
}

abbrev pub is_legacy : AuthType → Bool
is_legacy AuthType.legacy_api_key = true
is_legacy AuthType.db_api_key = false
is_legacy AuthType.insecure_dev = false
is_legacy AuthType.jwt = false

-- The claim of a caller, laid beside what its credential has given.
abbrev pub settle_claim : Option Json → Out AuthContext → Out AuthContext
settle_claim claimed (err e t) = err e t
settle_claim claimed (ok context t) =
    if is_legacy context.auth_type
    then ok context t
    else if claims_other claimed context.tenant_id
    then err unauthorized t
    else ok context t

module _ (claimed : Option Json) where
  abbrev Settles : M AuthContext → M AuthContext → Type 0
  Settles m n = (s : Store) → m s ≡ settle_claim claimed (n s)

  Settles-bind :
      {A : Type 0} (m : M A) (f g : A → M AuthContext)
      → ((a : A) → Settles (f a) (g a))
      → Settles (m >>= f) (m >>= g)
  Settles-bind {A} m f g h s = go (m s)
    where
      go :
          (o : Out A)
          → elim o [ ok a t ↦ f a t | err e t ↦ err e t ]
            ≡ settle_claim claimed (elim o [ ok a t ↦ g a t | err e t ↦ err e t ])
      go (ok a t) = h a t
      go (err e t) = refl

  accept_claims-Settles :
      (claims : Claims) (principal : Option Json)
      → Settles (accept_claims claims claimed principal) (accept_claims claims none principal)
  unfolding resolve_tenant claims_other
  accept_claims-Settles claims principal s = ground arith

  verify_jwt-Settles :
      (token : String) (principal : Option Json)
      → Settles (verify_jwt token claimed principal) (verify_jwt token none principal)
  unfolding verify_jwt
  verify_jwt-Settles token principal = Settles-bind load_jwt_key _ _ λ key.
      Settles-bind (gets (λ s. s.env.jwt_decode token key s.settings.jwt_algorithm)) _ _ λ payload.
        Settles-bind (or_raise payload unauthorized) _ _
          λ claims. accept_claims-Settles claims principal

  accept_user-Settles :
      (user : Option User) → Settles (accept_user user claimed) (accept_user user none)
  unfolding resolve_tenant claims_other
  accept_user-Settles none s = refl
  accept_user-Settles (some user) s = ground arith

  verify_db_key-Settles :
      (token : String) → Settles (verify_db_key token claimed) (verify_db_key token none)
  unfolding verify_db_key
  verify_db_key-Settles token =
      Settles-bind (verify_request_api_key (("authorization", prepend "Bearer " token) ∷ [])) _ _
        accept_user-Settles

  verify_legacy-Settles : (token : String) → Settles (verify_legacy token) (verify_legacy token)
  unfolding verify_legacy compare_digest
  verify_legacy-Settles token s = ground arith

  verify_token-Settles :
      (token : String) (principal : Option Json)
      → Settles (verify_token token claimed principal) (verify_token token none principal)
  verify_token-Settles token principal s = ground (
    arith,
    verify_jwt-Settles token principal s,
    verify_db_key-Settles token s,
    verify_legacy-Settles token s,
  )

-- What a caller claims decides nothing: with a claim, `verify_auth_token` does what it does without,
-- and then refuses the request if the claim is another tenant than the credential's. Only the shared
-- key gives a context that no claim is compared with.
pub verify_auth_token-settle_claim :
    (token : Option String) (claimed principal_id : Option Json) (s : Store)
    → verify_auth_token token claimed principal_id s
      ≡ settle_claim claimed (verify_auth_token token none principal_id s)
unfolding verify_auth_token resolve_tenant claims_other
verify_auth_token-settle_claim token claimed principal_id s =
    ground (arith, verify_token-Settles claimed (get_or token "") principal_id s)
