-- ===== src/RateLimit/Handler/Tests.antt =====
-- Runs of `RateLimitHandler` (source/middleware/RateLimitHandler.h), and the theorems about it at
-- concrete requests.
use idtx_core.Base.{
  ℕ, ◌≤◌, ◌≡◌, refl, true, false, some, [], Str, Str-discrete, codes, arith, ℕ_discrete, u64,
}
use idtx_core.Bytes.{before, drop_while, drop_while_end}
use idtx_core.RateLimit.Clock.{seconds}
use idtx_core.RateLimit.Throttle.{
  Policy, Throttler, new_throttler, locked_for, record_failure, maybe_sweep, fail,
}
use idtx_core.RateLimit.Throttle.Lockout.{after}
use idtx_core.RateLimit.Handler.{
  Handler, Request, Readings, default_config, new_handler, configure, is_login, max_body,
  normalise_path, resolve_client_ip, before_handle, too_large, locked_out,
}
use idtx_core.RateLimit.Handler.Verdict.{locked_login_turned_away}
use idtx_core.RateLimit.Handler.Rejected.{retrust, forwarded_for_always_trusted}

abbrev login : Request
login = record {
  is_options = false;
  is_post = true;
  url = codes "/api/v1/auth/login?next=1";
  forwarded_for = codes " 10.0.0.7 ,10.0.0.1";
  remote_address = codes "10.0.0.1";
  body_size = 80;
}

abbrev big_login : Request
big_login = record login { body_size = 4097 }

abbrev client : Str
client = codes "10.0.0.7"

abbrev at_second : ℕ → Readings
at_second n = record { lockout = seconds n; login = seconds n; global = seconds n }

abbrev handler : Handler
handler = configure new_handler default_config 0 0 0

abbrev strict : Policy
strict = record { max_failures = 1; failure_window = 300; lockout = 300 }

-- A throttler that has just locked the client out at second 10.
abbrev locking : Throttler
locking = new_throttler strict 0

abbrev locked_handler : Handler
locked_handler = record handler {
  login_throttler = some (record_failure locking (resolve_client_ip login true) (seconds 10)).0;
}

client_test : resolve_client_ip login true ≡ client
unfolding resolve_client_ip before drop_while drop_while_end
client_test = refl

remote_test : resolve_client_ip login false ≡ codes "10.0.0.1"
unfolding resolve_client_ip before drop_while drop_while_end
remote_test = refl

login_test : is_login login ≡ true
unfolding is_login normalise_path before Str-discrete ℕ_discrete
login_test = refl

enabled_test : handler.enabled ≡ true
unfolding configure
enabled_test = refl

fits_test : 80 ≤ max_body handler.config login
unfolding configure max_body is_login normalise_path before Str-discrete ℕ_discrete
fits_test = omega arith

big_test : (before_handle handler big_login (at_second 1)).1 ≡ some (too_large 4096 4097)
unfolding before_handle configure max_body is_login normalise_path before Str-discrete ℕ_discrete
big_test = refl

trips_test : (record_failure locking (resolve_client_ip login true) (seconds 10)).1 ≡ true
unfolding record_failure maybe_sweep fail u64
trips_test = refl

locked_login_turned_away_example : before_handle locked_handler login (at_second 309) ≡ (
  locked_handler,
  some (
      locked_out locked_handler.config (
        locked_for
          (record_failure locking (resolve_client_ip login true) (seconds 10)).0
          (resolve_client_ip login true)
          (seconds 309))),
)
unfolding after
locked_login_turned_away_example =
    locked_login_turned_away locked_handler login (at_second 309) locking (seconds 10) []
      enabled_test refl login_test fits_test trips_test tt tt refl (omega arith)

forwarded_for_always_trusted_example :
    (before_handle (retrust handler false) login (at_second 1)).1
    ≡ (before_handle handler login (at_second 1)).1
forwarded_for_always_trusted_example =
    forwarded_for_always_trusted handler login (at_second 1) false
