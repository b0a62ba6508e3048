-- ===== src/Jwt/Keys.antt =====
-- `JwksCache`, `configure` and `refreshJwks` of source/middleware/JwtAuthHandler.cpp.
use idtx_core.Base.{
  ℕ, Bool, true, false, not, ◌||◌, Option, none, some, List, [], ◌∷◌, ◌++◌, Str, codes,
  if◌then◌else◌,
}
use idtx_core.Bytes.{is_empty, same}
use idtx_core.Prims.{to_string}
use idtx_core.Jwt.{
  Member, absent, not_text, text, Jwk, KeyEntry, Response, Attempt, returned, threw, Libraries,
  Handler,
}

abbrev pub Cache : Type 0
Cache = List (Str × KeyEntry)

-- `kid_to_keyEntry.find`
unfoldable pub find_key : Str → Cache → Option KeyEntry
find_key kid [] = none
find_key kid ((k, entry) ∷ cache) = if same k kid then some entry else find_key kid cache

-- `getKeyEntry`, and no entry without a cache
unfoldable pub get_key_entry : Str → Option Cache → Option KeyEntry
get_key_entry kid none = none
get_key_entry kid (some cache) = find_key kid cache

-- `keyEntries.emplace`: an entry that is there already stays.
unfoldable pub emplace : Str → KeyEntry → Cache → Cache
emplace kid entry [] = (kid, entry) ∷ []
emplace kid entry ((k, old) ∷ cache) =
    let rest = emplace kid entry cache in if same k kid then (k, old) ∷ cache else (k, old) ∷ rest

-- `publicKey.value(name, default)`: a member that is no string throws.
unfoldable pub value : Member → Str → Attempt Str
value absent default = returned default
value not_text default = threw (codes "type_error")
value (text s) default = returned s

unfoldable pub then_on : {A : Type 0} {B : Type 0} → Attempt A → (A → Attempt B) → Attempt B
then_on (returned a) f = f a
then_on (threw what) f = threw what

-- The element as the loop reads it: its four texts, with their defaults.
unfoldable pub texts : Jwk → Attempt KeyEntry
texts k = then_on (value k.kty []) (λ kty. then_on (value k.use_of (codes "sig")) (λ use_of.
    then_on (value k.kid []) (λ kid.
      then_on (value k.alg [])
        (λ alg. returned (record { pem = []; kid = kid; kty = kty; use_of = use_of; alg = alg })))))

abbrev pub emplace_pem : Cache → KeyEntry → Str → Cache
emplace_pem cache k pem = emplace k.kid (record k { pem = pem }) cache

-- The components of the public key: the element is passed over if one is absent.
unfoldable pub with_components :
    {Token : Type 0} → Libraries Token → Cache → KeyEntry → Member → Member → Attempt Cache
with_components lib cache k absent e = returned cache
with_components lib cache k n absent = returned cache
with_components lib cache k (text n) (text e) =
    then_on (lib.make_pem n e) (λ pem. returned (emplace_pem cache k pem))
with_components lib cache k n e = threw (codes "type_error")

unfoldable pub add_key : {Token : Type 0} → Libraries Token → Cache → Jwk → KeyEntry → Attempt Cache
add_key lib cache jwk k =
    if is_empty k.kid || not (same k.use_of (codes "sig"))
    then returned cache
    else if same k.kty (codes "RSA")
    then with_components lib cache k jwk.n jwk.e
    else returned cache

unfoldable pub add_keys : {Token : Type 0} → Libraries Token → Cache → List Jwk → Attempt Cache
add_keys lib cache [] = returned cache
add_keys lib cache (jwk ∷ jwks) =
    then_on (then_on (texts jwk) (add_key lib cache jwk)) (λ next. add_keys lib next jwks)

-- `loadJwksJson`: the entries that the cache is replaced with.
unfoldable pub load_jwks_json : {Token : Type 0} → Libraries Token → Str → Attempt Cache
load_jwks_json lib body = then_on (lib.parse_keys body) (add_keys lib [])

unfoldable pub load_into : Handler → Attempt Cache → Handler × Bool
load_into h (returned cache) = (record h { cache = some cache }, true)
load_into h (threw what) = (record h { last_error = codes "Failed to load JWKS: " ++ what }, false)

-- `refreshJwks`; the second argument answers a GET.
unfoldable pub refresh_jwks :
    {Token : Type 0} → Libraries Token → (Str → Response) → Handler → Handler × Bool
refresh_jwks lib get h =
    let response = get h.jwks_uri in
    let failed = codes "Failed to GET jwks: HTTP " ++ to_string response.code in
    if is_empty h.jwks_uri
    then (record h { last_error = codes "jwks_uri not set" }, false)
    else if not response.ok
    then (record h { last_error = failed ++ codes " " ++ response.err }, false)
    else load_into h (load_jwks_json lib response.body)

-- `OidcConfiguration`
pub record OidcConfiguration : Type 0 where
  pub well_known_url : Str
  pub audiences : List Str
  pub enabled : Bool

-- What the metadata says: the second member is read when the first has been stored.
unfoldable pub discover :
    {Token : Type 0} → Libraries Token → (Str → Response) → Handler → Member → Member → Handler
discover lib get h (text issuer) (text uri) =
    (refresh_jwks lib get (record h { issuer = issuer; jwks_uri = uri })).0
discover lib get h (text issuer) uri = record h { issuer = issuer }
discover lib get h issuer uri = h

unfoldable pub configure :
    {Token : Type 0}
    → Libraries Token
    → (Str → Response)
    → Handler
    → OidcConfiguration
    → List Str
    → ℕ
    → Handler
configure lib get h oidc algs leeway =
    let set = record h {
      well_known_url = oidc.well_known_url;
      audiences = oidc.audiences;
      allowed_algs = algs;
      leeway = leeway;
      is_enabled = oidc.enabled;
    } in
    let fresh = record set { cache = some [] } in
    let response = get oidc.well_known_url in
    if not oidc.enabled
    then set
    else if not response.ok
    then fresh
    else discover lib get fresh (lib.parse_member response.body (codes "issuer"))
        (lib.parse_member response.body (codes "jwks_uri"))
