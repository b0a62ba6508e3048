-- ===== src/Jwt/Tests.antt =====
-- Runs of `JwtAuthHandler` (source/middleware/JwtAuthHandler.cpp) over libraries made for them, and
-- the theorems about it there.
use idtx_core.Base.{
  ◌≡◌, refl, true, false, some, [], ◌∷◌, ◌++◌, Str, Str-discrete, codes, ℕ_discrete, if◌then◌else◌,
}
use idtx_core.Bytes.{same, drop_while, drop_while_end}
use idtx_core.Jwt.{
  Member, absent, text, Jwk, KeyEntry, Verifier, Response, Attempt, returned, threw, Libraries,
  Handler, new_handler,
}
use idtx_core.Jwt.Keys.{
  find_key, get_key_entry, emplace, value, then_on, texts, with_components, add_key, add_keys,
  load_jwks_json, load_into, refresh_jwks, OidcConfiguration, discover, configure,
}
use idtx_core.Jwt.Verify.{
  Request, holds, nonempty, verdict, run_verifier, verify_with, try_verify, settle, check_token,
  header_text, read_claims, read_token, authenticate, authenticate_request, passage, admitted,
  unauthorized, get_bearer_token, is_open, before_handle,
}
use idtx_core.Jwt.Oidc.{split_env, split_from, add_token, trim_space}
use idtx_core.Jwt.Refresh.{keys_stay}
use idtx_core.Jwt.Accepted.{Justified, only_authentic_pass}
use idtx_core.Jwt.Cached.{Call, configures, after_call, after_calls, IsSigningKey, found_keys_sign}

-- A token is written as the id of its key; the key set lists one id.
abbrev header_of : Str → Str → Member
header_of kid name = if same name (codes "kid") then text kid else text (codes "RS256")

abbrev member_of : Str → Str → Member
member_of body name = text name

abbrev verify_pem : Verifier → Str → Attempt Unit
verify_pem v token = if same v.pem (codes "ne") then returned tt else threw (codes "bad signature")

abbrev key_named : Str → Jwk
key_named kid = record {
  kty = text (codes "RSA");
  use_of = absent;
  kid = text kid;
  alg = absent;
  n = text (codes "n");
  e = text (codes "e");
}

abbrev libraries : Libraries Str
libraries = record {
  decode = λ s. returned s;
  header = header_of;
  payload = λ token name. text (codes "ann");
  make_algorithm = λ alg pem. returned tt;
  verify = verify_pem;
  make_pem = λ n e. returned (n ++ e);
  parse_keys = λ body. returned (key_named body ∷ []);
  parse_member = member_of;
}

abbrev answers : Str → Str → Response
answers body url = record { ok = true; body = body; code = 200; err = [] }

abbrev oidc : OidcConfiguration
oidc = record { well_known_url = codes "idp"; audiences = codes "idtx" ∷ []; enabled = true }

abbrev first_call : Call
first_call = configures (answers (codes "k1")) oidc (codes "RS256" ∷ []) 60

abbrev handler : Handler
handler = after_calls libraries new_handler (first_call ∷ [])

abbrev request : Str → Request
request token = record {
  is_options = false;
  url = codes "/api/v1/sessions";
  authorization = codes "Bearer " ++ token;
}

admitted_test :
    (before_handle libraries (answers []) handler (request (codes "k1"))).1 ≡ admitted (codes "ann")
unfolding before_handle authenticate_request authenticate read_token read_claims check_token settle
    try_verify verify_with run_verifier verdict passage get_bearer_token is_open header_text holds
    same Str-discrete ℕ_discrete find_key get_key_entry emplace value then_on texts with_components
    add_key add_keys load_jwks_json load_into refresh_jwks discover configure after_call after_calls
    nonempty
admitted_test = refl

-- The identity provider has the key by now.
unknown_key_test :
    (before_handle libraries (answers (codes "k2")) handler (request (codes "k2"))).1
    ≡ unauthorized (codes "Unknown key id kid")
unfolding before_handle authenticate_request authenticate read_token read_claims check_token settle
    try_verify verify_with run_verifier verdict passage get_bearer_token is_open header_text holds
    same Str-discrete ℕ_discrete find_key get_key_entry emplace value then_on texts with_components
    add_key add_keys load_jwks_json load_into refresh_jwks discover configure after_call after_calls
    nonempty
unknown_key_test = refl

keys_stay_example :
    before_handle libraries (answers (codes "k2")) handler (request (codes "k2"))
    ≡ (handler, (before_handle libraries (answers []) handler (request (codes "k2"))).1)
keys_stay_example =
    keys_stay libraries (answers (codes "k2")) (answers []) handler (request (codes "k2"))

only_authentic_pass_example :
    Justified libraries handler
      (request (codes "k1"))
      (before_handle libraries (answers []) handler (request (codes "k1"))).1
only_authentic_pass_example =
    only_authentic_pass libraries (answers []) handler (request (codes "k1"))

abbrev key_1 : KeyEntry
key_1 = record {
  pem = codes "ne";
  kid = codes "k1";
  kty = codes "RSA";
  use_of = codes "sig";
  alg = [];
}

key_known : get_key_entry (codes "k1") handler.cache ≡ some key_1
unfolding same Str-discrete ℕ_discrete find_key get_key_entry emplace value then_on texts
    with_components add_key add_keys load_jwks_json load_into refresh_jwks discover configure
    after_call after_calls
key_known = refl

found_keys_sign_example : IsSigningKey libraries (codes "k1") key_1
found_keys_sign_example = found_keys_sign libraries (first_call ∷ []) (codes "k1") key_1 key_known

audiences_test : split_env (codes " a,, b c ,") ≡ codes "a" ∷ codes "b c" ∷ []
unfolding split_env split_from add_token trim_space drop_while drop_while_end
audiences_test = refl
