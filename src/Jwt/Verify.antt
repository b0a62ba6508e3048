-- ===== src/Jwt/Verify.antt =====
-- `before_handle`, `authenticate` and `tryVerify` of source/middleware/JwtAuthHandler.cpp.
use idtx_core.Base.{
  Bool, true, false, not, ◌&&◌, ◌||◌, Option, none, some, List, [], ◌∷◌, ◌++◌, Str, codes,
  if◌then◌else◌,
}
use idtx_core.Bytes.{is_empty, same, after_prefix}
use idtx_core.Jwt.{
  Member, absent, not_text, text, KeyEntry, Verifier, Response, Attempt, returned, threw, Libraries,
  Handler,
}
use idtx_core.Jwt.Keys.{get_key_entry, refresh_jwks}

-- The answer of `tryVerify`: verified, or not and why; or an exception that it lets through.
pub data Check : Type 0 where
  verified : Check
  refused : Str → Check
  escaped : Check

-- `audiences_` and `allowed_algs` are searched.
unfoldable pub holds : Str → List Str → Bool
holds s [] = false
holds s (t ∷ ts) = same t s || holds s ts

-- `verifier.with_issuer` is called for an issuer that is not empty.
unfoldable pub nonempty : Str → Option Str
nonempty [] = none
nonempty (c ∷ s) = some (c ∷ s)

abbrev pub verifier : Handler → KeyEntry → Str → Verifier
verifier h key alg = record {
  leeway = h.leeway;
  issuer = nonempty h.issuer;
  audiences = h.audiences;
  alg = alg;
  pem = key.pem;
}

abbrev pub supported : List Str
supported =
    codes "RS256"
    ∷ codes "RS384"
    ∷ codes "RS512"
    ∷ codes "PS256"
    ∷ codes "PS384"
    ∷ codes "PS512"
    ∷ []

unfoldable pub verdict : Attempt Unit → Check
verdict (returned u) = verified
verdict (threw what) = refused (codes "Token verification failed: " ++ what)

-- `verifier.allow_algorithm` with the algorithm made for the key, then `verifier.verify`
unfoldable pub run_verifier :
    {Token : Type 0} → Libraries Token → Verifier → Token → Attempt Unit → Check
run_verifier lib v token (threw what) = escaped
run_verifier lib v token (returned u) = verdict (lib.verify v token)

unfoldable pub verify_with :
    {Token : Type 0} → Libraries Token → Handler → Token → Str → Option KeyEntry → Check
verify_with lib h token alg none = refused (codes "Unknown key id kid")
verify_with lib h token alg (some key) =
    if not (same key.use_of (codes "sig"))
    then refused (codes "jwk not for signing")
    else if not (same key.kty (codes "RSA"))
    then refused (codes "Unsupported key type")
    else if not (is_empty key.alg) && not (same key.alg alg)
    then refused (codes "jwk alg mismatch")
    else if holds alg supported
    then run_verifier lib (verifier h key alg) token (lib.make_algorithm alg key.pem)
    else refused (codes "Unsupported algorithm")

unfoldable pub try_verify : {Token : Type 0} → Libraries Token → Handler → Token → Str → Str → Check
try_verify lib h token alg kid = verify_with lib h token alg (get_key_entry kid h.cache)

-- `AuthResult`, or an exception that `authenticate` lets through
pub data Outcome : Type 0 where
  success : Str → Outcome
  failure : Str → Str → Outcome
  exception : Outcome

-- The second `tryVerify`, after a refresh that may have failed.
unfoldable pub retry :
    {Token : Type 0}
    → Libraries Token
    → Token
    → Str
    → Str
    → Str
    → Str
    → Handler × Bool
    → Handler × Outcome
retry lib token alg kid sub err (h, false) = (h, failure err sub)
retry lib token alg kid sub err (h, true) = (h, again (try_verify lib h token alg kid))
  where
    again : Check → Outcome
    again verified = success sub
    again (refused e) = failure e sub
    again escaped = exception

-- After the first `tryVerify`
unfoldable pub settle :
    {Token : Type 0}
    → Libraries Token
    → (Str → Response)
    → Handler
    → Token
    → Str
    → Str
    → Str
    → Check
    → Handler × Outcome
settle lib get h token alg kid sub verified = (h, success sub)
settle lib get h token alg kid sub escaped = (h, exception)
settle lib get h token alg kid sub (refused err) =
    let retried = retry lib token alg kid sub err (refresh_jwks lib get h) in
    if same err (codes "Unknown kid") then retried else (h, failure err sub)

-- `allowed_algs.empty()`
abbrev pub no_algs : List Str → Bool
no_algs [] = true
no_algs (a ∷ algs) = false

-- The token's header and subject are known.
unfoldable pub check_token :
    {Token : Type 0}
    → Libraries Token
    → (Str → Response)
    → Handler
    → Token
    → Str
    → Str
    → Str
    → Handler × Outcome
check_token lib get h token kid alg sub =
    if is_empty kid
    then (h, failure (codes "Token missing 'kid'") sub)
    else if is_empty alg
    then (h, failure (codes "Token missing 'alg'") sub)
    else if not (no_algs h.allowed_algs) && not (holds alg h.allowed_algs)
    then (h, failure (codes "Disallowed algorithm: " ++ alg) sub)
    else settle lib get h token alg kid sub (try_verify lib h token alg kid)

-- A header claim that is absent reads as empty; one that is no string throws.
unfoldable pub header_text : Member → Option Str
header_text absent = some []
header_text not_text = none
header_text (text s) = some s

-- The subject must be there.
unfoldable pub read_claims :
    {Token : Type 0}
    → Libraries Token
    → (Str → Response)
    → Handler
    → Token
    → Option Str
    → Option Str
    → Member
    → Handler × Outcome
read_claims lib get h token (some kid) (some alg) (text sub) =
    check_token lib get h token kid alg sub
read_claims lib get h token kid alg sub = (h, exception)

unfoldable pub read_token :
    {Token : Type 0}
    → Libraries Token
    → (Str → Response)
    → Handler
    → Attempt Token
    → Handler × Outcome
read_token lib get h (threw what) = (h, failure (codes "Invalid token format: " ++ what) [])
read_token lib get h (returned token) =
    read_claims lib get h token (header_text (lib.header token (codes "kid")))
      (header_text (lib.header token (codes "alg"))) (lib.payload token (codes "sub"))

-- `authenticate(token)`
unfoldable pub authenticate :
    {Token : Type 0} → Libraries Token → (Str → Response) → Handler → Str → Handler × Outcome
authenticate lib get h token =
    if is_empty token
    then (h, failure (codes "Missing token") [])
    else if is_empty h.issuer || is_empty h.jwks_uri
    then (h, failure (codes "JwtAuth not initialized") [])
    else read_token lib get h (lib.decode token)

-- What the handler reads of a request; a header that is absent reads as empty.
pub record Request : Type 0 where
  pub is_options : Bool
  pub url : Str
  pub authorization : Str

unfoldable pub get_bearer_token : Request → Option Str
get_bearer_token r = after_prefix (codes "Bearer ") r.authorization

-- `authenticate(req)`
unfoldable pub authenticate_request :
    {Token : Type 0} → Libraries Token → (Str → Response) → Handler → Option Str → Handler × Outcome
authenticate_request lib get h none = (h, failure (codes "Unauthorized: No Bearer token") [])
authenticate_request lib get h (some token) = authenticate lib get h token

-- How a request leaves `before_handle`: untouched, with the context of its subject, answered with
-- 401 and a text, or by an exception.
pub data Passage : Type 0 where
  untouched : Passage
  admitted : Str → Passage
  unauthorized : Str → Passage
  raised : Passage

unfoldable pub passage : Outcome → Passage
passage (success sub) = admitted sub
passage (failure message sub) = unauthorized message
passage exception = raised

unfoldable pub is_open : Request → Bool
is_open r = same r.url (codes "/api/v1/health") || same r.url (codes "/api/v1/auth/login")

unfoldable pub before_handle :
    {Token : Type 0} → Libraries Token → (Str → Response) → Handler → Request → Handler × Passage
before_handle lib get h r =
    let (next, outcome) = authenticate_request lib get h (get_bearer_token r) in
    if r.is_options || not h.is_enabled
    then (h, untouched)
    else if is_open r
    then (h, untouched)
    else (next, passage outcome)
