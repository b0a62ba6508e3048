-- ===== src/Jwt.antt =====
-- `JwtAuthHandler` of source/middleware/JwtAuthHandler.h and .cpp: its state, and what it uses of
-- jwt-cpp, of the JSON library and of the HTTP client.
pub mod Keys
pub mod Verify
pub mod Oidc
pub mod Signed
pub mod Accepted
pub mod Refresh
pub mod Cached
pub mod Audiences
mod Tests
use idtx_core.Base.{ℕ, Bool, false, Option, none, List, [], Str}

-- A member of a JSON object or a claim of a token, asked for as a string.
pub data Member : Type 0 where
  absent not_text : Member
  text : Str → Member

-- One element of the array "keys" of a JWKS.
pub record Jwk : Type 0 where
  pub kty : Member
  pub use_of : Member
  pub kid : Member
  pub alg : Member
  pub n : Member
  pub e : Member

pub record KeyEntry : Type 0 where
  pub pem : Str
  pub kid : Str
  pub kty : Str
  pub use_of : Str
  pub alg : Str

-- What `jwt::verify()` has been told when `verify` is called, in the order of the calls.
pub record Verifier : Type 0 where
  pub leeway : ℕ
  pub issuer : Option Str
  pub audiences : List Str
  pub alg : Str
  pub pem : Str

-- `http::Response`
pub record Response : Type 0 where
  pub ok : Bool
  pub body : Str
  pub code : ℕ
  pub err : Str

-- A call that may throw an exception, with its text.
pub data Attempt (A : Type 0) : Type 0 where
  returned : A → Attempt A
  threw : Str → Attempt A

-- The libraries.
pub record Libraries (Token : Type 0) : Type 0 where
  pub decode : Str → Attempt Token  -- `jwt::decode`
  pub header : Token → Str → Member  -- `get_header_claim`
  pub payload : Token → Str → Member  -- `get_payload_claim`
  pub make_algorithm : Str → Str → Attempt Unit  -- `jwt::algorithm::rs256` and the like, for a PEM
  pub verify : Verifier → Token → Attempt Unit  -- `verifier.verify`
  pub make_pem : Str → Str → Attempt Str  -- `create_public_key_from_rsa_components`
  pub parse_keys : Str → Attempt (List Jwk)  -- the range of the loop over `parse(text)["keys"]`
  pub parse_member : Str → Str → Member  -- `parse(text).at(name)`; any failure is no text

-- The cache maps a key's id to its entry; the entry that stands first counts.
pub record Handler : Type 0 where
  pub is_enabled : Bool
  pub well_known_url : Str
  pub issuer : Str
  pub jwks_uri : Str
  pub audiences : List Str
  pub allowed_algs : List Str
  pub leeway : ℕ
  pub last_error : Str
  pub cache : Option (List (Str × KeyEntry))

abbrev pub new_handler : Handler
new_handler = record {
  is_enabled = false;
  well_known_url = [];
  issuer = [];
  jwks_uri = [];
  audiences = [];
  allowed_algs = [];
  leeway = 60;
  last_error = [];
  cache = none;
}
