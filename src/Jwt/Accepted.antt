-- ===== src/Jwt/Accepted.antt =====
-- Which requests `before_handle` of source/middleware/JwtAuthHandler.cpp lets through.
use idtx_core.Base.{
  ◌≡◌, refl, ◌∙◌, Bool, true, false, not, ◌&&◌, ◌||◌, ◌⊎◌, inl, inr, Option, none, some, List, [],
  ◌∷◌, Str, codes, by_test, not-false,
}
use idtx_core.Bytes.{is_empty}
use idtx_core.Jwt.{
  Member, absent, not_text, text, KeyEntry, Response, Attempt, returned, threw, Libraries, Handler,
}
use idtx_core.Jwt.Keys.{get_key_entry}
use idtx_core.Jwt.Verify.{
  Check, verified, refused, escaped, Outcome, success, failure, exception, Request, holds,
  verify_with, try_verify, settle, check_token, header_text, read_claims, read_token, authenticate,
  authenticate_request, passage, Passage, untouched, admitted, unauthorized, raised,
  get_bearer_token, is_open, before_handle, no_algs,
}
use idtx_core.Jwt.Refresh.{Final, verify_with-Final}
use idtx_core.Jwt.Signed.{Verifies, Checked, verify_with-Checked}

-- The token decodes to one of this subject that names a cached key and an allowed algorithm, and
-- verifies with them.
pub record IsAuthentic {Token : Type 0} (lib : Libraries Token) (h : Handler) (written sub : Str)
    : Type 0 where
  pub token : Token
  pub decodes : lib.decode written ≡ returned token
  pub subject : lib.payload token (codes "sub") ≡ text sub
  pub kid : Str
  pub names_key : lib.header token (codes "kid") ≡ text kid
  pub alg : Str
  pub names_alg : lib.header token (codes "alg") ≡ text alg
  pub allowed : (h.allowed_algs ≡ []) ⊎ (holds alg h.allowed_algs ≡ true)
  pub key : KeyEntry
  pub cached : get_key_entry kid h.cache ≡ some key
  pub verifies : Verifies lib h token alg key

header_text-text : (m : Member) (s : Str) → header_text m ≡ some s → is_empty s ≡ false → m ≡ text s
unfolding header_text
header_text-text absent [] e n = cc
header_text-text absent (c ∷ s) e n = cc
header_text-text not_text s e n = cc
header_text-text (text t) s e n = cc

allows :
    (alg : Str) (algs : List Str)
    → not (no_algs algs) && not (holds alg algs) ≡ false
    → (algs ≡ []) ⊎ (holds alg algs ≡ true)
allows alg [] e = inl refl
allows alg (a ∷ algs) e = inr (not-false _ e)

module _ {Token : Type 0} (lib : Libraries Token) (h : Handler) where
  abbrev Genuine : Str → Handler × Outcome → Type 0
  Genuine written (next, success sub) = IsAuthentic lib h written sub
  Genuine written _ = Unit

  -- What has been read of the token so far.
  module _ (get : Str → Response) (written : Str) (token : Token)
      (decodes : lib.decode written ≡ returned token) where
    settle-Genuine :
        (kid alg sub : Str) (o : Option KeyEntry) (c : Check)
        → lib.header token (codes "kid") ≡ text kid
        → lib.header token (codes "alg") ≡ text alg
        → lib.payload token (codes "sub") ≡ text sub
        → (h.allowed_algs ≡ []) ⊎ (holds alg h.allowed_algs ≡ true)
        → get_key_entry kid h.cache ≡ o
        → Checked lib h token alg o c
        → Final c
        → Genuine written (settle lib get h token alg kid sub c)
    unfolding Final settle
    settle-Genuine kid alg sub o verified k a s allowed cached (key, e, v) f = record {
      token = token;
      decodes = decodes;
      subject = s;
      kid = kid;
      names_key = k;
      alg = alg;
      names_alg = a;
      allowed = allowed;
      key = key;
      cached = cached ∙ e;
      verifies = v;
    }
    settle-Genuine kid alg sub o escaped k a s allowed cached v f = tt
    settle-Genuine kid alg sub o (refused err) k a s allowed cached v f = rw f tt

    check_token-Genuine :
        (kid alg sub : Str)
        → header_text (lib.header token (codes "kid")) ≡ some kid
        → header_text (lib.header token (codes "alg")) ≡ some alg
        → lib.payload token (codes "sub") ≡ text sub
        → Genuine written (check_token lib get h token kid alg sub)
    unfolding check_token try_verify
    check_token-Genuine kid alg sub k a s =
        let key = get_key_entry kid h.cache in
        by_test (Genuine written) (is_empty kid) _ _ (λ e. tt)
          (λ nk.
            by_test (Genuine written) (is_empty alg) _ _ (λ e. tt)
              (λ na.
                by_test (Genuine written)
                  (not (no_algs h.allowed_algs) && not (holds alg h.allowed_algs)) _ _ (λ e. tt)
                  (λ e.
                    settle-Genuine kid alg sub key (verify_with lib h token alg key)
                      (header_text-text _ kid k nk) (header_text-text _ alg a na) s
                      (allows alg h.allowed_algs e) refl (verify_with-Checked lib h token alg key)
                      (verify_with-Final lib h token alg key))))

    read_claims-Genuine :
        (kid alg : Option Str) (sub : Member)
        → header_text (lib.header token (codes "kid")) ≡ kid
        → header_text (lib.header token (codes "alg")) ≡ alg
        → lib.payload token (codes "sub") ≡ sub
        → Genuine written (read_claims lib get h token kid alg sub)
    unfolding read_claims
    read_claims-Genuine (some kid) (some alg) (text sub) k a s =
        check_token-Genuine kid alg sub k a s
    read_claims-Genuine (some kid) (some alg) absent k a s = tt
    read_claims-Genuine (some kid) (some alg) not_text k a s = tt
    read_claims-Genuine (some kid) none sub k a s = tt
    read_claims-Genuine none alg sub k a s = tt

  read_token-Genuine :
      (get : Str → Response) (written : Str) (a : Attempt Token)
      → lib.decode written ≡ a
      → Genuine written (read_token lib get h a)
  unfolding read_token
  read_token-Genuine get written (threw what) e = tt
  read_token-Genuine get written (returned token) e =
      read_claims-Genuine get written token e _ _ _ refl refl refl

  authenticate-Genuine :
      (get : Str → Response) (written : Str) → Genuine written (authenticate lib get h written)
  unfolding authenticate
  authenticate-Genuine get written =
      by_test (Genuine written) (is_empty written) _ _ (λ e. tt)
        (λ e.
          by_test (Genuine written) (is_empty h.issuer || is_empty h.jwks_uri) _ _ (λ e. tt)
            (λ e. read_token-Genuine get written (lib.decode written) refl))

-- Why a request may go on: it needs no token, or it carries an authentic one of the subject that
-- is put into the context.
pub Justified : {Token : Type 0} → Libraries Token → Handler → Request → Passage → Type 0
Justified lib h r untouched = (r.is_options || not h.is_enabled) || is_open r ≡ true
Justified lib h r (admitted sub) =
    (written : Str) × (get_bearer_token r ≡ some written) × IsAuthentic lib h written sub
Justified lib h r (unauthorized message) = Unit
Justified lib h r raised = Unit

authenticate_request-Justified :
    {Token : Type 0}
    → (lib : Libraries Token) (get : Str → Response) (h : Handler) (r : Request)
      (token : Option Str)
    → get_bearer_token r ≡ token
    → Justified lib h r (passage (authenticate_request lib get h token).1)
unfolding authenticate_request passage Justified
authenticate_request-Justified lib get h r none e = tt
authenticate_request-Justified lib get h r (some written) e =
    from (authenticate lib get h written) (authenticate-Genuine lib h get written)
  where
    from : (p : Handler × Outcome) → Genuine lib h written p → Justified lib h r (passage p.1)
    from (next, success sub) g = (written, e, g)
    from (next, failure message sub) g = tt
    from (next, exception) g = tt

or-true : (a b : Bool) → a ≡ true → a || b ≡ true
or-true a b e = cc

or-true_right : (a b : Bool) → b ≡ true → a || b ≡ true
or-true_right true b e = refl
or-true_right false b e = e

-- A request goes on to its route only if it is a preflight request, the handler is disabled, or its
-- path is that of the health check or of the login, or else if it carries a bearer token that
-- decodes to one of the subject in the context, names an RSA signature key that the handler has and
-- an algorithm that is allowed, supported and the key's own, and that the library verifies with
-- that key for the configured issuer, audiences and leeway.
pub only_authentic_pass :
    {Token : Type 0}
    → (lib : Libraries Token) (get : Str → Response) (h : Handler) (r : Request)
    → Justified lib h r (before_handle lib get h r).1
unfolding before_handle Justified
only_authentic_pass lib get h r =
    let P : Handler × Passage → Type 0 = λ p. Justified lib h r p.1 in
    by_test P (r.is_options || not h.is_enabled) _ _ (λ e. or-true _ _ e)
      (λ e.
        by_test P (is_open r) _ _ (λ e. or-true_right _ _ e)
          (λ e. authenticate_request-Justified lib get h r (get_bearer_token r) refl))
