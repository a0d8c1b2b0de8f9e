-- ===== src/Limits.antt =====
-- limits.rs: the concurrent-session cap, and the per-address accept rate limiter.
pub mod Address
pub mod Session
pub mod Rate
mod Tests
use five_nines_echo.Base.{ℕ}
use Session.{SessionCap}
use Rate.{RateLimiter}
use Session
use Rate

-- What the limiter reads of `LimitsConfig` (config.rs).
pub record LimitsConfig : Type 0 where
  pub max_in_flight_per_role : ℕ
  pub tls_idle_timeout_secs : ℕ
  pub accept_rate_per_ip : ℕ
  pub accept_rate_burst : ℕ
  pub rate_limit_max_tracked_ips : ℕ
  pub rate_limit_bucket_idle_ttl_secs : ℕ

-- `LimitsConfig::default`
abbrev pub default : LimitsConfig
default = record {
  max_in_flight_per_role = 1024;
  tls_idle_timeout_secs = 300;
  accept_rate_per_ip = 50;
  accept_rate_burst = 100;
  rate_limit_max_tracked_ips = 65536;
  rate_limit_bucket_idle_ttl_secs = 300;
}

pub record AcceptorLimits : Type 0 where
  pub sessions : SessionCap
  pub rate : RateLimiter

abbrev pub from_config : LimitsConfig → AcceptorLimits
from_config cfg = record {
  sessions = Session.new cfg.max_in_flight_per_role;
  rate =
      Rate.with_limits cfg.accept_rate_per_ip cfg.accept_rate_burst cfg.rate_limit_max_tracked_ips
        cfg.rate_limit_bucket_idle_ttl_secs;
}
