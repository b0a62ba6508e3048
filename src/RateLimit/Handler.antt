-- ===== src/RateLimit/Handler.antt =====
-- `RateLimitHandler` of source/middleware/RateLimitHandler.h. The limiters it shares are its state;
-- the requests are records of what the handler reads of a Crow request.
pub mod Client
pub mod Verdict
pub mod Rejected
mod Tests
use idtx_core.Base.{
  ℕ, ◌+◌, ◌*◌, Bool, true, false, not, ◌&&◌, ◌||◌, Option, none, some, List, [], ◌∷◌, ◌++◌, Str,
  Str-discrete, codes, ite, ltb, ◌==◌, if◌then◌else◌,
}
use idtx_core.Bytes.{is_empty, before, drop_while, drop_while_end}
use idtx_core.RateLimit.Window.{Limiter, Decision, new_limiter, allow}
use idtx_core.RateLimit.Throttle.{Policy, Throttler, new_throttler, locked_for}

pub record Config : Type 0 where
  pub global_max_requests : ℕ
  pub global_window : ℕ
  pub login_max_requests : ℕ
  pub login_window : ℕ
  pub login_policy : Policy  -- loginMaxFailures, loginFailureWindow, loginLockout
  pub login_max_body_bytes : ℕ
  pub upload_max_body_bytes : ℕ
  pub global_max_body_bytes : ℕ
  pub trust_forwarded_for : Bool

abbrev pub default_config : Config
default_config = record {
  global_max_requests = 300;
  global_window = 60;
  login_max_requests = 10;
  login_window = 60;
  login_policy = record { max_failures = 5; failure_window = 300; lockout = 300 };
  login_max_body_bytes = 4 * 1024;
  upload_max_body_bytes = 8 * 1024 * 1024 * 1024;
  global_max_body_bytes = 8 * 1024 * 1024;
  trust_forwarded_for = true;
}

pub record Handler : Type 0 where
  pub enabled : Bool
  pub config : Config
  pub global_limiter : Option Limiter
  pub login_limiter : Option Limiter
  pub login_throttler : Option Throttler

abbrev pub new_handler : Handler
new_handler = record {
  enabled = false;
  config = default_config;
  global_limiter = none;
  login_limiter = none;
  login_throttler = none;
}

-- The last three arguments are the clock's readings by the three constructors.
unfoldable pub configure : Handler → Config → ℕ → ℕ → ℕ → Handler
configure h cfg now_global now_login now_throttler = record {
  enabled = true;
  config = cfg;
  global_limiter = some (new_limiter cfg.global_max_requests cfg.global_window now_global);
  login_limiter = some (new_limiter cfg.login_max_requests cfg.login_window now_login);
  login_throttler = some (new_throttler cfg.login_policy now_throttler);
}

-- A header that is absent reads as empty.
pub record Request : Type 0 where
  pub is_options : Bool
  pub is_post : Bool
  pub url : Str
  pub forwarded_for : Str
  pub remote_address : Str
  pub body_size : ℕ

abbrev pub is_blank : ℕ → Bool
is_blank c = c == b' ' || c == b'\t'

abbrev pub remote_or_unknown : Str → Str
remote_or_unknown [] = codes "unknown"
remote_or_unknown (c ∷ s) = c ∷ s

-- `resolve_client_ip request trust_forwarded`
unfoldable pub resolve_client_ip : Request → Bool → Str
resolve_client_ip r trust =
    let first = before b',' r.forwarded_for in
    let address = drop_while_end is_blank (drop_while is_blank first) in
    if trust && not (is_empty r.forwarded_for) && not (is_empty address)
    then address
    else remote_or_unknown r.remote_address

unfoldable pub normalise_path : Str → Str
normalise_path url = before b'?' url

unfoldable pub is_login : Request → Bool
is_login r =
    r.is_post && ite (Str-discrete (normalise_path r.url) (codes "/api/v1/auth/login")) true false

unfoldable pub is_upload : Request → Bool
is_upload r =
    r.is_post && ite (Str-discrete (normalise_path r.url) (codes "/api/v1/upload")) true false

unfoldable pub max_body : Config → Request → ℕ
max_body cfg r =
    if is_login r
    then cfg.login_max_body_bytes
    else if is_upload r
    then cfg.upload_max_body_bytes
    else cfg.global_max_body_bytes

pub data AuditEvent : Type 0 where
  body_too_large login_lockout login_rate_limit_exceeded rate_limit_exceeded : AuditEvent

-- The audit record and the response of a request that is turned away.
pub record Rejection : Type 0 where
  pub event : AuditEvent
  pub code : ℕ
  pub limit : ℕ
  pub observed : Option ℕ
  pub retry_after : Option ℕ
  pub error : Str

abbrev pub too_large : ℕ → ℕ → Rejection
too_large limit observed = record {
  event = body_too_large;
  code = 413;
  limit = limit;
  observed = some observed;
  retry_after = none;
  error = codes "payload_too_large";
}

abbrev pub locked_out : Config → ℕ → Rejection
locked_out cfg seconds = record {
  event = login_lockout;
  code = 429;
  limit = cfg.login_policy.max_failures;
  observed = none;
  retry_after = some seconds;
  error = codes "too_many_attempts";
}

abbrev pub limited : AuditEvent → Decision → Rejection
limited event d = record {
  event = event;
  code = 429;
  limit = d.limit;
  observed = some d.observed;
  retry_after = some d.retry_after;
  error = codes "rate_limited";
}

-- The clock's readings in the calls that `before_handle` makes.
pub record Readings : Type 0 where
  pub lockout : ℕ
  pub login : ℕ
  pub global : ℕ

-- For how long the source is locked out; 0 without a throttler.
unfoldable pub lockout_left : Option Throttler → Str → ℕ → ℕ
lockout_left none ip now = 0
lockout_left (some t) ip now = locked_for t ip now

-- A limiter that is there is asked; the request is turned away if it says so.
unfoldable pub ask : AuditEvent → Option Limiter → Str → ℕ → Option Limiter × Option Rejection
ask event none key now = (none, none)
ask event (some l) key now =
    let (l', d) = allow l key now in (some l', if d.allowed then none else some (limited event d))

unfoldable pub ask_global : Handler → Str → ℕ → Handler × Option Rejection
ask_global h ip now =
    let (l, r) = ask rate_limit_exceeded h.global_limiter (codes "global:" ++ ip) now in
    (record h { global_limiter = l }, r)

unfoldable pub then_global : Handler → Str → ℕ → Option Rejection → Handler × Option Rejection
then_global h ip now none = ask_global h ip now
then_global h ip now (some e) = (h, some e)

-- The login limiter first; the global one is asked unless the login limiter turned it away.
unfoldable pub ask_login : Handler → Str → Readings → Handler × Option Rejection
ask_login h ip t =
    let (l, r) = ask login_rate_limit_exceeded h.login_limiter (codes "login:" ++ ip) t.login in
    then_global (record h { login_limiter = l }) ip t.global r

-- `none` in place of a rejection: the request goes on to its route.
unfoldable pub before_handle : Handler → Request → Readings → Handler × Option Rejection
before_handle h r t =
    let ip = resolve_client_ip r true in
    let cap = max_body h.config r in
    let left = lockout_left h.login_throttler ip t.lockout in
    if not h.enabled
    then (h, none)
    else if r.is_options
    then (h, none)
    else if ltb cap r.body_size
    then (h, some (too_large cap r.body_size))
    else if is_login r && ltb 0 left
    then (h, some (locked_out h.config left))
    else if is_login r
    then ask_login h ip t
    else ask_global h ip t.global
