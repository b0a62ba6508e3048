-- ===== src/RateLimit/Handler/Verdict.antt =====
-- What `before_handle` (source/middleware/RateLimitHandler.h) answers, and whom it charges.
use idtx_core.Base.{
  ℕ, ◌+◌, ◌≤◌, ◌<◌, ◌≡◌, ◌↔◌, refl, ap, sym, ◌∙◌, true, false, List, Option, none, some, ◌++◌, Str,
  codes, arith,
}
use mathlib.Core.Path.{subst⁻¹}
use idtx_core.RateLimit.Clock.{seconds}
use idtx_core.RateLimit.Window.{Limiter, allow}
use idtx_core.RateLimit.Throttle.{Throttler, locked_for, record_failure}
use idtx_core.RateLimit.Throttle.Isolation.{Call, IsMonotone}
use idtx_core.RateLimit.Throttle.Lockout.{after, NoSuccess, lockout_persists}
use idtx_core.RateLimit.Handler.{
  Handler, Request, Readings, Rejection, AuditEvent, login_rate_limit_exceeded, rate_limit_exceeded,
  locked_out, is_login, max_body, resolve_client_ip, lockout_left, ask, then_global, ask_login,
  ask_global, before_handle,
}

-- A limiter lets the key through; one that is not there lets everything through.
abbrev pub Allows : Option Limiter → Str → ℕ → Type 0
Allows none key now = Unit {0}
Allows (some l) key now = (allow l key now).1.allowed ≡ true

ask-Allows :
    (event : AuditEvent) (l : Option Limiter) (key : Str) (now : ℕ)
    → ((ask event l key now).1 ≡ none) ↔ Allows l key now
unfolding ask
ask-Allows event none key now = (λ e. tt, λ e. refl)
ask-Allows event (some l) key now = (λ e. ground arith, λ e. ground arith)

then_global-Allows :
    (h : Handler) (ip : Str) (now : ℕ) (r : Option Rejection)
    → ((then_global h ip now r).1 ≡ none)
      ↔ (r ≡ none) × Allows h.global_limiter (codes "global:" ++ ip) now
unfolding then_global ask_global
then_global-Allows h ip now none =
    let asked = ask-Allows rate_limit_exceeded h.global_limiter (codes "global:" ++ ip) now in
    (λ e. (refl, asked.0 e), λ p. asked.1 p.1)
then_global-Allows h ip now (some r) = (λ e. cc, λ p. cc p.0)

ask_login-Allows :
    (h : Handler) (ip : Str) (t : Readings)
    → ((ask_login h ip t).1 ≡ none)
      ↔ Allows h.login_limiter (codes "login:" ++ ip) t.login
        × Allows h.global_limiter (codes "global:" ++ ip) t.global
unfolding ask_login
ask_login-Allows h ip t =
    let login =
      ask-Allows login_rate_limit_exceeded h.login_limiter (codes "login:" ++ ip) t.login in
    let global =
      then_global-Allows
        (record h {
          login_limiter =
              (ask login_rate_limit_exceeded h.login_limiter (codes "login:" ++ ip) t.login).0;
        })
        ip t.global
        (ask login_rate_limit_exceeded h.login_limiter (codes "login:" ++ ip) t.login).1 in
    (λ e. let p = global.0 e in (login.0 p.0, p.1), λ p. global.1 (login.1 p.0, p.1))

-- A login that is within the cap and not locked out is left to the limiters.
before_handle-login :
    (h : Handler) (r : Request) (t : Readings)
    → h.enabled ≡ true
    → r.is_options ≡ false
    → is_login r ≡ true
    → r.body_size ≤ max_body h.config r
    → lockout_left h.login_throttler (resolve_client_ip r true) t.lockout ≡ 0
    → before_handle h r t ≡ ask_login h (resolve_client_ip r true) t
unfolding before_handle
before_handle-login h r t on opt login fits free = ground arith

-- Otherwise it is turned away.
before_handle-passed :
    (h : Handler) (r : Request) (t : Readings)
    → h.enabled ≡ true
    → r.is_options ≡ false
    → is_login r ≡ true
    → (before_handle h r t).1 ≡ none
    → (r.body_size ≤ max_body h.config r)
      × (lockout_left h.login_throttler (resolve_client_ip r true) t.lockout ≡ 0)
unfolding before_handle
before_handle-passed h r t on opt login e = ground arith

-- A login goes on to its route exactly if its body is within the cap, its source is not locked
-- out, and both limiters allow it.
login_let_through :
    (h : Handler) (r : Request) (t : Readings)
    → h.enabled ≡ true
    → r.is_options ≡ false
    → is_login r ≡ true
    → ((before_handle h r t).1 ≡ none)
      ↔ (r.body_size ≤ max_body h.config r)
        × (lockout_left h.login_throttler (resolve_client_ip r true) t.lockout ≡ 0)
        × Allows h.login_limiter (codes "login:" ++ resolve_client_ip r true) t.login
        × Allows h.global_limiter (codes "global:" ++ resolve_client_ip r true) t.global
login_let_through h r t on opt login =
    let asked = ask_login-Allows h (resolve_client_ip r true) t in
    (
      λ e.
          let (fits, free) = before_handle-passed h r t on opt login e in
          let same = before_handle-login h r t on opt login fits free in
          let (by_login, by_global) = asked.0 (sym (ap (λ p. p.1) same) ∙ e) in
          (fits, free, by_login, by_global),
      λ (fits, free, by_login, by_global).
          ap (λ p. p.1) (before_handle-login h r t on opt login fits free)
          ∙ asked.1 (by_login, by_global),
    )

before_handle-locked :
    (h : Handler) (r : Request) (t : Readings)
    → h.enabled ≡ true
    → r.is_options ≡ false
    → is_login r ≡ true
    → r.body_size ≤ max_body h.config r
    → 0 < lockout_left h.login_throttler (resolve_client_ip r true) t.lockout
    → before_handle h r t ≡ (
      h,
      some (
          locked_out h.config
            (lockout_left h.login_throttler (resolve_client_ip r true) t.lockout)),
    )
unfolding before_handle
before_handle-locked h r t on opt login fits locked = ground arith

-- Once a failure at time `start` has locked out the client of a login request, and as long as no
-- success of that client is recorded, the request is turned away until a second before the lockout
-- ends, no limiter counts it, and the response tells the whole seconds that are left.
pub locked_login_turned_away :
    (h : Handler) (r : Request) (t : Readings) (l : Throttler) (start : ℕ)
    (calls : List (Str × Call))
    → h.enabled ≡ true
    → r.is_options ≡ false
    → is_login r ≡ true
    → r.body_size ≤ max_body h.config r
    → (record_failure l (resolve_client_ip r true) start).1 ≡ true
    → IsMonotone start calls
    → NoSuccess (resolve_client_ip r true) (start + seconds l.policy.lockout) calls
    → h.login_throttler ≡ some (after (record_failure l (resolve_client_ip r true) start).0 calls)
    → t.lockout + seconds 1 ≤ start + seconds l.policy.lockout
    → before_handle h r t ≡ (
      h,
      some (
          locked_out h.config (
            locked_for
              (after (record_failure l (resolve_client_ip r true) start).0 calls)
              (resolve_client_ip r true)
              t.lockout)),
    )
unfolding lockout_left
locked_login_turned_away h r t l start calls on opt login fits trips mono quiet is lt =
    let ip = resolve_client_ip r true in
    let left : lockout_left h.login_throttler ip t.lockout
        ≡ locked_for (after (record_failure l ip start).0 calls) ip t.lockout =
      ap (λ o. lockout_left o ip t.lockout) is in
    let locked = lockout_persists l ip start t.lockout calls trips mono quiet lt in
    before_handle-locked h r t on opt login fits (subst⁻¹ (λ n. 0 < n) left locked)
    ∙ ap (λ n. (h, some (locked_out h.config n))) left
