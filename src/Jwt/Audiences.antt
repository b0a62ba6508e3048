-- ===== src/Jwt/Audiences.antt =====
-- Reading the audiences that `OidcConfiguration::create` (source/middleware/OidcConfiguration.cpp)
-- finds in the environment.
use idtx_core.Base.{◌≡◌, refl, sym, ◌∙◌, ap, false, List, [], ◌∷◌, ◌++◌, Str, All, or-false, ◌==◌}
use mathlib.Core.List.{append_assoc, append-nil}
use idtx_core.Bytes.{is_empty, has, drop_while, drop_while_end}
use idtx_core.Jwt.Oidc.{trim_space, add_token, split_from, split_env}

-- Not empty, without commas, and with no space at either end.
pub record IsAudience (s : Str) : Type 0 where
  pub nonempty : is_empty s ≡ false
  pub no_comma : has b',' s ≡ false
  pub trimmed : trim_space s ≡ s

-- The value that lists the audiences, with a comma between any two.
unfoldable pub join_commas : List Str → Str
join_commas [] = []
join_commas (s ∷ []) = s
join_commas (s ∷ t ∷ ts) = s ++ b',' ∷ join_commas (t ∷ ts)

-- A stretch without commas belongs to the token.
split_from-append :
    (token t s : Str) → has b',' t ≡ false → split_from token (t ++ s) ≡ split_from (token ++ t) s
unfolding split_from
split_from-append token [] s h = ap (λ u. split_from u s) (sym (append-nil token))
split_from-append token (c ∷ t) s h =
    let (e, h') = or-false (c == b',') (has b',' t) h in
    rw e (
      split_from-append (token ++ c ∷ []) t s h'
      ∙ ap (λ u. split_from u s) (append_assoc token (c ∷ []) t))

add_token-IsAudience :
    (s : Str) (rest : List Str) → IsAudience s → add_token (trim_space s) rest ≡ s ∷ rest
unfolding add_token
add_token-IsAudience s rest a = rw (a.trimmed, a.nonempty) refl

-- A token that the end of the value closes, and one that a comma closes.
split_from-last : (s : Str) → IsAudience s → split_from [] s ≡ s ∷ []
unfolding split_from
split_from-last s a =
    ap (split_from []) (sym (append-nil s))
    ∙ split_from-append [] s [] a.no_comma
    ∙ add_token-IsAudience s [] a

split_from-comma :
    (s rest : Str) → IsAudience s → split_from [] (s ++ b',' ∷ rest) ≡ s ∷ split_from [] rest
unfolding split_from
split_from-comma s rest a =
    split_from-append [] s (b',' ∷ rest) a.no_comma ∙ add_token-IsAudience s (split_from [] rest) a

-- Listing audiences and reading them back gives the audiences, in their order.
split_env-join_commas : (ts : List Str) → All IsAudience ts → split_env (join_commas ts) ≡ ts
unfolding split_env join_commas split_from add_token trim_space drop_while drop_while_end
split_env-join_commas [] a = refl
split_env-join_commas (s ∷ []) (a, rest) = split_from-last s a
split_env-join_commas (s ∷ t ∷ ts) (a, rest) =
    split_from-comma s (join_commas (t ∷ ts)) a
    ∙ ap (λ u. s ∷ u) (split_env-join_commas (t ∷ ts) rest)
