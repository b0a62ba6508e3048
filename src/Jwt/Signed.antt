-- ===== src/Jwt/Signed.antt =====
-- What a token that `tryVerify` of source/middleware/JwtAuthHandler.cpp verifies is checked for.
use idtx_core.Base.{
  ◌≡◌, refl, Bool, true, false, not, ◌&&◌, ◌⊎◌, inl, inr, Option, none, some, Str, codes, by_test,
  not-false,
}
use idtx_core.Bytes.{is_empty, same}
use idtx_core.Jwt.{KeyEntry, Attempt, returned, threw, Libraries, Handler}
use idtx_core.Jwt.Verify.{
  Check, verified, holds, supported, verifier, verdict, run_verifier, verify_with,
}

-- The key is one for RSA signatures, fits the algorithm, and the library verifies the token with
-- it, for the handler's issuer, audiences and leeway.
pub record Verifies {Token : Type 0} (lib : Libraries Token) (h : Handler) (token : Token)
    (alg : Str) (key : KeyEntry) : Type 0 where
  pub is_supported : holds alg supported ≡ true
  pub signs : same key.use_of (codes "sig") ≡ true
  pub is_rsa : same key.kty (codes "RSA") ≡ true
  pub same_alg : (is_empty key.alg ≡ true) ⊎ (same key.alg alg ≡ true)
  pub algorithm : lib.make_algorithm alg key.pem ≡ returned tt
  pub verifies : lib.verify (verifier h key alg) token ≡ returned tt

module _ {Token : Type 0} (lib : Libraries Token) (h : Handler) where
  abbrev pub Checked : Token → Str → Option KeyEntry → Check → Type 0
  Checked token alg o verified = (key : KeyEntry) × (o ≡ some key) × Verifies lib h token alg key
  Checked token alg o _ = Unit

  not_both : (a b : Bool) → not a && not b ≡ false → (a ≡ true) ⊎ (b ≡ true)
  not_both true b e = inl refl
  not_both false true e = inr refl
  not_both false false e = cc

  run_verifier-Checked :
      (token : Token) (alg : Str) (key : KeyEntry) (made ran : Attempt Unit)
      → lib.make_algorithm alg key.pem ≡ made
      → lib.verify (verifier h key alg) token ≡ ran
      → holds alg supported ≡ true
      → same key.use_of (codes "sig") ≡ true
      → same key.kty (codes "RSA") ≡ true
      → (is_empty key.alg ≡ true) ⊎ (same key.alg alg ≡ true)
      → Checked token alg (some key) (run_verifier lib (verifier h key alg) token made)
  unfolding run_verifier verdict
  run_verifier-Checked token alg key (threw what) ran m r s u k a = tt
  run_verifier-Checked token alg key (returned v) (threw what) m r s u k a = rw r tt
  run_verifier-Checked token alg key (returned v) (returned w) m r s u k a = rw r (
    key,
    refl,
    record { is_supported = s; signs = u; is_rsa = k; same_alg = a; algorithm = m; verifies = r },
  )

  pub verify_with-Checked :
      (token : Token) (alg : Str) (o : Option KeyEntry)
      → Checked token alg o (verify_with lib h token alg o)
  unfolding verify_with
  verify_with-Checked token alg none = tt
  verify_with-Checked token alg (some key) =
      let C = Checked token alg (some key) in
      by_test C (not (same key.use_of (codes "sig"))) _ _ (λ e. tt)
        (λ u.
          by_test C (not (same key.kty (codes "RSA"))) _ _ (λ e. tt)
            (λ k.
              by_test C (not (is_empty key.alg) && not (same key.alg alg)) _ _ (λ e. tt)
                (λ a.
                  by_test C (holds alg supported) _ _
                    (λ s.
                      run_verifier-Checked token alg key _ _ refl refl s (not-false _ u)
                        (not-false _ k) (not_both _ _ a))
                    (λ e. tt))))
