-- ===== src/Jwt/Oidc.antt =====
-- `OidcConfiguration::create` of source/middleware/OidcConfiguration.cpp.
use idtx_core.Base.{
  ℕ, Bool, true, false, not, ◌&&◌, ◌||◌, Option, none, some, List, [], ◌∷◌, ◌++◌, Str, codes, leb,
  ◌==◌, if◌then◌else◌,
}
use idtx_core.Bytes.{is_empty, same, drop_while, drop_while_end}
use idtx_core.Jwt.{Attempt, returned, threw}
use idtx_core.Jwt.Keys.{OidcConfiguration}

-- `std::isspace` in the "C" locale
abbrev pub is_space : ℕ → Bool
is_space c = c == 32 || (leb 9 c && leb c 13)

unfoldable pub trim_space : Str → Str
trim_space s = drop_while_end is_space (drop_while is_space s)

-- A token that is empty once trimmed is left out.
unfoldable pub add_token : Str → List Str → List Str
add_token token rest = if is_empty token then rest else token ∷ rest

-- The loop of `split_env`, with the bytes of the token it stands in.
unfoldable pub split_from : Str → Str → List Str
split_from token [] = add_token (trim_space token) []
split_from token (c ∷ s) =
    let here = add_token (trim_space token) (split_from [] s) in
    let further = split_from (token ++ c ∷ []) s in if c == b',' then here else further

unfoldable pub split_env : Str → List Str
split_env s = split_from [] s

-- `get_env("IDTX_INSECURE_DISABLE_AUTH").value_or("false")`
abbrev pub value_or : Option Str → Str → Str
value_or none default = default
value_or (some s) default = s

-- `enabled`, from the value of IDTX_INSECURE_DISABLE_AUTH
unfoldable pub is_enabled : Option Str → Bool
is_enabled env =
    let disable_auth = value_or env (codes "false") in
    not (same disable_auth (codes "true")) && not (same disable_auth (codes "1"))

unfoldable pub with_audiences : Str → Str → List Str → Attempt OidcConfiguration
with_audiences name url [] = threw (name ++ codes " parsed to an empty list.")
with_audiences name url (a ∷ audiences) =
    returned (record { well_known_url = url; audiences = a ∷ audiences; enabled = true })

unfoldable pub from_environment : Str → Str → Option Str → Option Str → Attempt OidcConfiguration
from_environment url_name audiences_name none audiences =
    threw (codes "Missing required environment variable: " ++ url_name)
from_environment url_name audiences_name (some url) none =
    threw (codes "Missing required environment variable: " ++ audiences_name)
from_environment url_name audiences_name (some url) (some audiences) =
    with_audiences audiences_name url (split_env audiences)

-- `create`; the first argument is the environment.
unfoldable pub create : (Str → Option Str) → Str → Str → Attempt OidcConfiguration
create env url_name audiences_name =
    if is_enabled (env (codes "IDTX_INSECURE_DISABLE_AUTH"))
    then from_environment url_name audiences_name (env url_name) (env audiences_name)
    else returned (record { well_known_url = []; audiences = []; enabled = false })
