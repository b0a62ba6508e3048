-- ===== src/Jwt/Refresh.antt =====
-- When `authenticate` of source/middleware/JwtAuthHandler.cpp fetches the keys again.
use idtx_core.Base.{
  ◌≡◌, refl, false, not, ◌&&◌, ◌||◌, Option, none, some, Str, Str-discrete, codes, by_test,
  both_ways, ap, ℕ_discrete,
}
use idtx_core.Bytes.{is_empty, same}
use idtx_core.Jwt.{
  Member, absent, not_text, text, KeyEntry, Response, Attempt, returned, threw, Libraries, Handler,
}
use idtx_core.Jwt.Keys.{get_key_entry}
use idtx_core.Jwt.Verify.{
  Check, verified, refused, escaped, Request, holds, supported, verifier, verdict, run_verifier,
  verify_with, try_verify, settle, check_token, header_text, read_claims, read_token, authenticate,
  authenticate_request, passage, get_bearer_token, is_open, before_handle,
}

-- The answer is not the one that `authenticate` waits for before it fetches the keys again.
unfoldable pub Final : Check → Type 0
Final (refused err) = same err (codes "Unknown kid") ≡ false
Final _ = Unit

verdict-Final : (a : Attempt Unit) → Final (verdict a)
unfolding Final verdict same Str-discrete ℕ_discrete
verdict-Final (returned u) = tt
verdict-Final (threw what) = refl

pub verify_with-Final :
    {Token : Type 0}
    → (lib : Libraries Token) (h : Handler) (token : Token) (alg : Str) (key : Option KeyEntry)
    → Final (verify_with lib h token alg key)
unfolding Final verify_with run_verifier same Str-discrete ℕ_discrete
verify_with-Final lib h token alg none = refl
verify_with-Final lib h token alg (some key) =
    by_test Final (not (same key.use_of (codes "sig"))) _ _ (λ e. refl)
      (λ e.
        by_test Final (not (same key.kty (codes "RSA"))) _ _ (λ e. refl)
          (λ e.
            by_test Final (not (is_empty key.alg) && not (same key.alg alg)) _ _ (λ e. refl)
              (λ e.
                by_test Final (holds alg supported) _ _
                  (λ e. run-Final (lib.make_algorithm alg key.pem)) (λ e. refl))))
  where
    run-Final : (a : Attempt Unit) → Final (run_verifier lib (verifier h key alg) token a)
    run-Final (returned u) = verdict-Final (lib.verify (verifier h key alg) token)
    run-Final (threw what) = tt

-- The same answer, and the state is left.
abbrev Left : {A : Type 0} → Handler → Handler × A → Handler × A → Type 0
Left h p q = p ≡ (h, q.1)

module _ {Token : Type 0} (lib : Libraries Token) (get get' : Str → Response) (h : Handler) where
  settle-Left :
      (token : Token) (alg kid sub : Str) (c : Check)
      → Final c
      → Left h (settle lib get h token alg kid sub c) (settle lib get' h token alg kid sub c)
  unfolding Final settle
  settle-Left token alg kid sub verified f = refl
  settle-Left token alg kid sub escaped f = refl
  settle-Left token alg kid sub (refused err) f = rw f refl

  check_token-Left :
      (token : Token) (kid alg sub : Str)
      → Left h (check_token lib get h token kid alg sub) (check_token lib get' h token kid alg sub)
  unfolding check_token try_verify
  check_token-Left token kid alg sub = both_ways (Left h) (is_empty kid) _ _ _ _ refl (
      both_ways (Left h) (is_empty alg) _ _ _ _ refl (
        both_ways (Left h) _ _ _ _ _ refl (
          settle-Left token alg kid sub (try_verify lib h token alg kid)
            (verify_with-Final lib h token alg (get_key_entry kid h.cache)))))

  read_claims-Left :
      (token : Token) (kid alg : Option Str) (sub : Member)
      → Left h (read_claims lib get h token kid alg sub) (read_claims lib get' h token kid alg sub)
  unfolding read_claims
  read_claims-Left token (some kid) (some alg) (text sub) = check_token-Left token kid alg sub
  read_claims-Left token (some kid) (some alg) absent = refl
  read_claims-Left token (some kid) (some alg) not_text = refl
  read_claims-Left token (some kid) none sub = refl
  read_claims-Left token none alg sub = refl

  read_token-Left : (a : Attempt Token) → Left h (read_token lib get h a) (read_token lib get' h a)
  unfolding read_token
  read_token-Left (threw what) = refl
  read_token-Left (returned token) =
      read_claims-Left token (header_text (lib.header token (codes "kid")))
        (header_text (lib.header token (codes "alg"))) (lib.payload token (codes "sub"))

  authenticate_request-Left :
      (token : Option Str)
      → Left h (authenticate_request lib get h token) (authenticate_request lib get' h token)
  unfolding authenticate_request authenticate
  authenticate_request-Left none = refl
  authenticate_request-Left (some token) = both_ways (Left h) (is_empty token) _ _ _ _ refl (
      both_ways (Left h) (is_empty h.issuer || is_empty h.jwks_uri) _ _ _ _ refl
        (read_token-Left (lib.decode token)))

-- No request makes the handler fetch its keys again, also one whose token names a key that it does
-- not have: the handler stays as it is, and what the identity provider would answer to a request
-- for the keys makes no difference.
pub keys_stay :
    {Token : Type 0}
    → (lib : Libraries Token) (get get' : Str → Response) (h : Handler) (r : Request)
    → before_handle lib get h r ≡ (h, (before_handle lib get' h r).1)
unfolding before_handle
keys_stay lib get get' h r = both_ways (Left h) (r.is_options || not h.is_enabled) _ _ _ _ refl (
    both_ways (Left h) (is_open r) _ _ _ _ refl (
      ap (λ p. (p.0, passage p.1)) (authenticate_request-Left lib get get' h (get_bearer_token r))))
