-- ===== src/RateLimit/Handler/Rejected.antt =====
-- Whom a request that `before_handle` (source/middleware/RateLimitHandler.h) turns away is charged
-- to, and what it is told.
use idtx_core.Base.{
  ℕ, ◌<◌, ◌≡◌, ◌⊎◌, refl, Bool, true, false, not, ◌&&◌, Option, none, some, ◌++◌, Str, codes, ltb,
  inl, inr, arith, if◌then◌else◌, by_test,
}
use mathlib.Core.Path.{subst}
use idtx_core.RateLimit.Window.{Limiter, decide, allow}
use idtx_core.RateLimit.Handler.{
  Handler, Request, Readings, Rejection, AuditEvent, body_too_large, login_lockout,
  login_rate_limit_exceeded, rate_limit_exceeded, limited, is_login, max_body, resolve_client_ip,
  lockout_left, ask, then_global, ask_login, ask_global, before_handle,
}

-- What is left untouched by the check that turned the request away, and by those after it.
abbrev pub Untouched : AuditEvent → Handler → Handler → Type 0
Untouched body_too_large h h' = h' ≡ h
Untouched login_lockout h h' = h' ≡ h
Untouched login_rate_limit_exceeded h h' =
    (h'.global_limiter ≡ h.global_limiter) × (h'.login_throttler ≡ h.login_throttler)
Untouched rate_limit_exceeded h h' = h'.login_throttler ≡ h.login_throttler

-- A response other than 413 says to come back in no less than a second.
abbrev pub Told : Rejection → Type 0
Told e = (e.code ≡ 413) ⊎ ((n : ℕ) × (e.retry_after ≡ some n) × (0 < n))

abbrev Sound : Handler → Handler → Option Rejection → Type 0
Sound h h' none = Unit {0}
Sound h h' (some e) = Untouched e.event h h' × Told e

allow_retry_after : (l : Limiter) (key : Str) (now : ℕ) → 0 < (allow l key now).1.retry_after
unfolding allow decide
allow_retry_after l key now = ground arith

ask-Sound :
    (h h' : Handler) (event : AuditEvent) (l : Option Limiter) (key : Str) (now : ℕ)
    → Untouched event h h'
    → Sound h h' (ask event l key now).1
unfolding ask
ask-Sound h h' event none key now u = tt
ask-Sound h h' event (some l) key now u =
    let d = (allow l key now).1 in
    by_test (Sound h h') d.allowed none (some (limited event d)) (λ e. tt)
      (λ e. (u, inr (d.retry_after, refl, allow_retry_after l key now)))

ask_global-Sound :
    (h k : Handler) (ip : Str) (now : ℕ)
    → k.login_throttler ≡ h.login_throttler
    → Sound h (ask_global k ip now).0 (ask_global k ip now).1
unfolding ask_global
ask_global-Sound h k ip now e =
    let key = codes "global:" ++ ip in
    let l = (ask rate_limit_exceeded k.global_limiter key now).0 in
    ask-Sound h (record k { global_limiter = l }) rate_limit_exceeded k.global_limiter key now e

then_global-Sound :
    (h k : Handler) (ip : Str) (now : ℕ) (r : Option Rejection)
    → k.login_throttler ≡ h.login_throttler
    → Sound h k r
    → Sound h (then_global k ip now r).0 (then_global k ip now r).1
unfolding then_global
then_global-Sound h k ip now none e s = ask_global-Sound h k ip now e
then_global-Sound h k ip now (some r) e s = s

ask_login-Sound :
    (h : Handler) (ip : Str) (t : Readings) → Sound h (ask_login h ip t).0 (ask_login h ip t).1
unfolding ask_login
ask_login-Sound h ip t =
    let key = codes "login:" ++ ip in
    let asked = ask login_rate_limit_exceeded h.login_limiter key t.login in
    let k = record h { login_limiter = asked.0 } in
    then_global-Sound h k ip t.global asked.1 refl
      (ask-Sound h k login_rate_limit_exceeded h.login_limiter key t.login (refl, refl))

and-positive : (a : Bool) (n : ℕ) → a && ltb 0 n ≡ true → 0 < n
and-positive a n e = ground arith

before_handle-Sound :
    (h : Handler) (r : Request) (t : Readings)
    → Sound h (before_handle h r t).0 (before_handle h r t).1
unfolding before_handle
before_handle-Sound h r t =
    let P : Handler × Option Rejection → Type 0 = λ p. Sound h p.0 p.1 in
    let ip = resolve_client_ip r true in
    let cap = max_body h.config r in
    let left = lockout_left h.login_throttler ip t.lockout in
    by_test P (not h.enabled) _ _ (λ e. tt)
      (λ e.
        by_test P r.is_options _ _ (λ e. tt)
          (λ e.
            by_test P (ltb cap r.body_size) _ _ (λ e. (refl, inl refl))
              (λ e.
                by_test P (is_login r && ltb 0 left) _ _
                  (λ e. (refl, inr (left, refl, and-positive (is_login r) left e)))
                  (λ e.
                    by_test P (is_login r) _ _ (λ e. ask_login-Sound h ip t)
                      (λ e. ask_global-Sound h h ip t.global refl)))))

-- A request that is turned away for its size or its lockout changes nothing; one that the login
-- limiter turns away is not counted by the global limiter; none changes the failures on record.
-- Every response but a 413 says to come back in no less than a second.
turned_away :
    (h : Handler) (r : Request) (t : Readings) (e : Rejection)
    → (before_handle h r t).1 ≡ some e
    → Untouched e.event h (before_handle h r t).0 × Told e
turned_away h r t e answer =
    subst (Sound h (before_handle h r t).0) answer (before_handle-Sound h r t)

same_test :
    {A : Type 0} {B : Type 0}
    → (f : A → B) (test : Bool) (a b a' b' : A) → f a ≡ f a'
    → f b ≡ f b'
    → f (if test then a else b) ≡ f (if test then a' else b')
same_test f true a b a' b' p q = p
same_test f false a b a' b' p q = q

abbrev pub retrust : Handler → Bool → Handler
retrust h trust = record h { config = record h.config { trust_forwarded_for = trust } }

then_global-retrust :
    (h : Handler) (trust : Bool) (ip : Str) (now : ℕ) (r : Option Rejection)
    → (then_global (retrust h trust) ip now r).1 ≡ (then_global h ip now r).1
unfolding then_global ask_global
then_global-retrust h trust ip now none = refl
then_global-retrust h trust ip now (some e) = refl

ask_login-retrust :
    (h : Handler) (trust : Bool) (ip : Str) (t : Readings)
    → (ask_login (retrust h trust) ip t).1 ≡ (ask_login h ip t).1
unfolding ask_login
ask_login-retrust h trust ip t =
    let asked = ask login_rate_limit_exceeded h.login_limiter (codes "login:" ++ ip) t.login in
    then_global-retrust (record h { login_limiter = asked.0 }) trust ip t.global asked.1

-- The configured `trustForwardedFor` makes no difference to any answer.
pub forwarded_for_always_trusted :
    (h : Handler) (r : Request) (t : Readings) (trust : Bool)
    → (before_handle (retrust h trust) r t).1 ≡ (before_handle h r t).1
unfolding before_handle max_body then_global
forwarded_for_always_trusted h r t trust =
    let f : Handler × Option Rejection → Option Rejection = λ p. p.1 in
    let ip = resolve_client_ip r true in
    same_test f (not h.enabled) _ _ _ _ refl (
      same_test f r.is_options _ _ _ _ refl (
        same_test f (ltb (max_body h.config r) r.body_size) _ _ _ _ refl (
          same_test f (is_login r && ltb 0 (lockout_left h.login_throttler ip t.lockout)) _ _ _ _
            refl
            (same_test f (is_login r) _ _ _ _ (ask_login-retrust h trust ip t)
              (then_global-retrust h trust ip t.global none)))))
