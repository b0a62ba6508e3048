-- ===== src/Jwt/Cached.antt =====
-- The keys that `JwksCache` and `configure` of source/middleware/JwtAuthHandler.cpp keep.
use idtx_core.Base.{
  ℕ, ◌≡◌, refl, ap, Bool, true, false, not, ◌||◌, Option, none, some, List, [], ◌∷◌, Str, codes,
  by_test, or-false, not-false, All,
}
use idtx_core.Bytes.{is_empty, same}
use idtx_core.Jwt.{
  Member, absent, not_text, text, Jwk, KeyEntry, Response, Attempt, returned, threw, Libraries,
  Handler, new_handler,
}
use idtx_core.Jwt.Keys.{
  Cache, find_key, get_key_entry, emplace, emplace_pem, then_on, texts, with_components, add_key,
  add_keys, load_jwks_json, load_into, refresh_jwks, discover, configure, OidcConfiguration,
}
use mathlib.Core.Path.{subst, subst⁻¹}
use idtx_core.Bytes.{same→eq}
use idtx_core.Jwt.Verify.{Request, before_handle}
use idtx_core.Jwt.Refresh.{keys_stay}

-- An RSA signature key under its own id, which is not empty, with a PEM that the library made.
pub record IsSigningKey {Token : Type 0} (lib : Libraries Token) (kid : Str) (key : KeyEntry)
    : Type 0 where
  pub own_kid : key.kid ≡ kid
  pub has_kid : is_empty kid ≡ false
  pub signs : same key.use_of (codes "sig") ≡ true
  pub is_rsa : same key.kty (codes "RSA") ≡ true
  pub n : Str
  pub e : Str
  pub made : lib.make_pem n e ≡ returned key.pem

module _ {Token : Type 0} (lib : Libraries Token) where
  abbrev Keys : Cache → Type 0
  Keys = All (λ p. IsSigningKey lib p.0 p.1)

  -- If the call returns, the cache it gives has only such keys.
  abbrev Gives : Attempt Cache → Type 0
  Gives (returned cache) = Keys cache
  Gives (threw what) = Unit

  emplace-Keys :
      (kid : Str) (key : KeyEntry) (cache : Cache)
      → IsSigningKey lib kid key
      → Keys cache
      → Keys (emplace kid key cache)
  unfolding emplace
  emplace-Keys kid key [] k ks = (k, tt)
  emplace-Keys kid key ((j, old) ∷ cache) k (o, ks) =
      by_test Keys (same j kid) _ _ (λ e. (o, ks)) (λ e. (o, emplace-Keys kid key cache k ks))

  with_components-Keys :
      (cache : Cache) (k : KeyEntry) (n e : Member)
      → is_empty k.kid ≡ false
      → same k.use_of (codes "sig") ≡ true
      → same k.kty (codes "RSA") ≡ true
      → Keys cache
      → Gives (with_components lib cache k n e)
  unfolding with_components then_on
  with_components-Keys cache k absent e hk hu hr ks = ks
  with_components-Keys cache k not_text absent hk hu hr ks = ks
  with_components-Keys cache k (text n) absent hk hu hr ks = ks
  with_components-Keys cache k not_text not_text hk hu hr ks = tt
  with_components-Keys cache k not_text (text e) hk hu hr ks = tt
  with_components-Keys cache k (text n) not_text hk hu hr ks = tt
  with_components-Keys cache k (text n) (text e) hk hu hr ks = made (lib.make_pem n e) refl
    where
      made :
          (a : Attempt Str)
          → lib.make_pem n e ≡ a
          → Gives (then_on a (λ pem. returned (emplace_pem cache k pem)))
      made (threw what) m = tt
      made (returned pem) m =
          emplace-Keys k.kid (record k { pem = pem }) cache
            (record {
              own_kid = refl;
              has_kid = hk;
              signs = hu;
              is_rsa = hr;
              n = n;
              e = e;
              made = m;
            })
            ks

  add_key-Keys :
      (cache : Cache) (jwk : Jwk) (k : KeyEntry) → Keys cache → Gives (add_key lib cache jwk k)
  unfolding add_key
  add_key-Keys cache jwk k ks =
      by_test Gives (is_empty k.kid || not (same k.use_of (codes "sig"))) _ _ (λ e. ks)
        (λ e.
          by_test Gives (same k.kty (codes "RSA")) _ _
            (λ r.
              let (hk, hu) = or-false _ _ e in
              with_components-Keys cache k jwk.n jwk.e hk (not-false _ hu) r ks)
            (λ r. ks))

  add_texts-Keys :
      (cache : Cache) (jwk : Jwk) (a : Attempt KeyEntry)
      → Keys cache
      → Gives (then_on a (add_key lib cache jwk))
  unfolding then_on
  add_texts-Keys cache jwk (returned k) ks = add_key-Keys cache jwk k ks
  add_texts-Keys cache jwk (threw what) ks = tt

  then_on-Gives :
      (a : Attempt Cache) (f : Cache → Attempt Cache)
      → Gives a
      → ((c : Cache) → Keys c → Gives (f c))
      → Gives (then_on a f)
  unfolding then_on
  then_on-Gives (returned c) f g h = h c g
  then_on-Gives (threw what) f g h = tt

  add_keys-Keys : (cache : Cache) (jwks : List Jwk) → Keys cache → Gives (add_keys lib cache jwks)
  unfolding add_keys
  add_keys-Keys cache [] ks = ks
  add_keys-Keys cache (jwk ∷ jwks) ks =
      then_on-Gives (then_on (texts jwk) (add_key lib cache jwk)) (λ c. add_keys lib c jwks)
        (add_texts-Keys cache jwk (texts jwk) ks) (λ c k. add_keys-Keys c jwks k)

  load_all-Keys : (a : Attempt (List Jwk)) → Gives (then_on a (add_keys lib []))
  unfolding then_on
  load_all-Keys (returned jwks) = add_keys-Keys [] jwks tt
  load_all-Keys (threw what) = tt

  abbrev OptionKeys : Option Cache → Type 0
  OptionKeys none = Unit
  OptionKeys (some cache) = Keys cache

  -- Every key that the handler has is one of those.
  abbrev pub IsKeyed : Handler → Type 0
  IsKeyed h = OptionKeys h.cache

  load_into-IsKeyed :
      (h : Handler) (a : Attempt Cache) → IsKeyed h → Gives a → IsKeyed (load_into h a).0
  unfolding load_into
  load_into-IsKeyed h (returned cache) k g = g
  load_into-IsKeyed h (threw what) k g = k

  refresh_jwks-IsKeyed :
      (get : Str → Response) (h : Handler) → IsKeyed h → IsKeyed (refresh_jwks lib get h).0
  unfolding refresh_jwks load_jwks_json
  refresh_jwks-IsKeyed get h k =
      let P : Handler × Bool → Type 0 = λ p. IsKeyed p.0 in
      by_test P (is_empty h.jwks_uri) _ _ (λ e. k)
        (λ e.
          by_test P (not (get h.jwks_uri).ok) _ _ (λ e. k)
            (λ e.
              load_into-IsKeyed h (load_jwks_json lib (get h.jwks_uri).body) k
                (load_all-Keys (lib.parse_keys (get h.jwks_uri).body))))

  discover-IsKeyed :
      (get : Str → Response) (h : Handler) (issuer uri : Member)
      → IsKeyed h
      → IsKeyed (discover lib get h issuer uri)
  unfolding discover
  discover-IsKeyed get h (text issuer) (text uri) k =
      refresh_jwks-IsKeyed get (record h { issuer = issuer; jwks_uri = uri }) k
  discover-IsKeyed get h (text issuer) absent k = k
  discover-IsKeyed get h (text issuer) not_text k = k
  discover-IsKeyed get h absent uri k = k
  discover-IsKeyed get h not_text uri k = k

  configure-IsKeyed :
      (get : Str → Response) (h : Handler) (oidc : OidcConfiguration) (algs : List Str) (leeway : ℕ)
      → IsKeyed h
      → IsKeyed (configure lib get h oidc algs leeway)
  unfolding configure
  configure-IsKeyed get h oidc algs leeway k =
      let body = (get oidc.well_known_url).body in
      by_test IsKeyed (not oidc.enabled) _ _ (λ e. k)
        (λ e.
          by_test IsKeyed (not (get oidc.well_known_url).ok) _ _ (λ e. tt)
            (λ e.
              discover-IsKeyed get _ (lib.parse_member body (codes "issuer"))
                (lib.parse_member body (codes "jwks_uri")) tt))

  abbrev Found : Str → Option KeyEntry → Type 0
  Found kid none = Unit
  Found kid (some key) = IsSigningKey lib kid key

  find_key-Found : (kid : Str) (cache : Cache) → Keys cache → Found kid (find_key kid cache)
  unfolding find_key
  find_key-Found kid [] ks = tt
  find_key-Found kid ((k, entry) ∷ cache) (x, ks) =
      by_test (Found kid) (same k kid) _ _
        (λ e. subst (λ j. IsSigningKey lib j entry) (same→eq k kid e) x)
        (λ e. find_key-Found kid cache ks)

  get_key_entry-Found :
      (kid : Str) (o : Option Cache) → OptionKeys o → Found kid (get_key_entry kid o)
  unfolding get_key_entry
  get_key_entry-Found kid none ks = tt
  get_key_entry-Found kid (some cache) ks = find_key-Found kid cache ks

-- A call of `configure` or of `before_handle`, with what the GETs in it are answered.
pub data Call : Type 0 where
  configures : (Str → Response) → OidcConfiguration → List Str → ℕ → Call
  handles : (Str → Response) → Request → Call

unfoldable pub after_call : {Token : Type 0} → Libraries Token → Handler → Call → Handler
after_call lib h (configures get oidc algs leeway) = configure lib get h oidc algs leeway
after_call lib h (handles get r) = (before_handle lib get h r).0

unfoldable pub after_calls : {Token : Type 0} → Libraries Token → Handler → List Call → Handler
after_calls lib h [] = h
after_calls lib h (c ∷ cs) = after_calls lib (after_call lib h c) cs

after_calls-IsKeyed :
    {Token : Type 0}
    → (lib : Libraries Token) (h : Handler) (cs : List Call) → IsKeyed lib h
    → IsKeyed lib (after_calls lib h cs)
unfolding after_calls after_call
after_calls-IsKeyed lib h [] k = k
after_calls-IsKeyed lib h (configures get oidc algs leeway ∷ cs) k =
    after_calls-IsKeyed lib (configure lib get h oidc algs leeway) cs
      (configure-IsKeyed lib get h oidc algs leeway k)
after_calls-IsKeyed lib h (handles get r ∷ cs) k =
    after_calls-IsKeyed lib (before_handle lib get h r).0 cs
      (subst⁻¹ (IsKeyed lib) (ap (λ p. p.0) (keys_stay lib get get h r)) k)

-- Whatever calls have been made, a key that the handler finds under an id is one of this id, which
-- is not empty, for RSA signatures, with a PEM that the library made of two components.
pub found_keys_sign :
    {Token : Type 0}
    → (lib : Libraries Token) (cs : List Call) (kid : Str) (key : KeyEntry)
    → get_key_entry kid (after_calls lib new_handler cs).cache ≡ some key
    → IsSigningKey lib kid key
found_keys_sign lib cs kid key e = subst (Found lib kid) e (
    get_key_entry-Found lib kid (after_calls lib new_handler cs).cache
      (after_calls-IsKeyed lib new_handler cs tt))
