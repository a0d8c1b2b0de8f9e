-- ===== src/Control.antt =====
-- control.rs: the messages of the control plane, as the JSON frames carry them, and the health of a
-- role. `PathBuf` is a text. Encoding to and from JSON is serde's and stays outside.
pub mod Envelope
use five_nines_echo.Base.{ℕ, String, Bool, Option, List}

-- Supervisor to worker, and admin command line to supervisor.
pub data ControlMsg : Type 0 where
  shutdown : ℕ → ControlMsg
  -- binary_path, include_tls, canary_secs, only_role
  upgrade : Option String → Bool → Option ℕ → Option String → ControlMsg
  status : ControlMsg
  drain : ControlMsg
  reload : ControlMsg

pub record RateLimiterStats : Type 0 where
  pub tracked_ips : ℕ
  pub idle_evictions : ℕ
  pub lru_evictions : ℕ
  pub cap_refused : ℕ

pub record WorkerStatus : Type 0 where
  pub role : String
  pub pid : ℕ
  pub generation : ℕ
  pub started_at_unix_ms : ℕ
  pub in_flight : ℕ
  pub listener_addr : Option String
  pub rate_limiter_stats : Option RateLimiterStats

-- Worker to supervisor.
pub data WorkerMsg : Type 0 where
  status_report : WorkerStatus → WorkerMsg

pub record SessionMetadata : Type 0 where
  pub peer : String
  pub ident : Option String
  pub trace_id : String

pub data HealthState : Type 0 where
  healthy backoff flapping failed : HealthState

pub record RoleHealth : Type 0 where
  pub role : String
  pub state : HealthState
  pub consecutive_fast_exits : ℕ
  pub next_backoff_ms : ℕ
  pub total_restarts : ℕ
  pub last_restart_at_unix_ms : Option ℕ

pub data UpgradePhase : Type 0 where
  starting done timeout skipped canary_aborted : UpgradePhase

-- Supervisor to admin command line.
pub data AdminResp : Type 0 where
  ok : AdminResp
  status : List WorkerStatus → List RoleHealth → AdminResp
  error : String → AdminResp
  -- worker, phase, generation_before, generation_after, ok, message
  upgrade_step : String → UpgradePhase → Option ℕ → Option ℕ → Bool → Option String → AdminResp
  upgrade_complete : Bool → AdminResp

-- What a connection to the processor starts with: peer, role and trace id of a session.
pub data ProcessorPreamble : Type 0 where
  session : String → String → String → ProcessorPreamble
  sidecar : ProcessorPreamble
