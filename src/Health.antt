-- ===== src/Health.antt =====
-- health.rs: what the health endpoint answers. The body is JSON text made by serde, and stands here as
-- the value that is encoded. Reads of the request are arguments, a read of no bytes being its end.
pub mod Code
pub mod Drain
mod Tests
use five_nines_echo.Base.{
  ℕ, zero, suc, ◌+◌, String, Bool, true, false, ◌&&◌, ◌||◌, List, [], ◌∷◌, ◌++◌, map, any, length,
  nat_beq, if◌then◌else◌,
}
use five_nines_echo.Control.{HealthState, RoleHealth}

pub record RoleEntry : Type 0 where
  pub role : String
  pub state : String

pub record HealthResponse : Type 0 where
  pub status : String
  pub roles : List RoleEntry

pub record Response : Type 0 where
  pub code : ℕ
  pub reason : String
  pub body : HealthResponse

abbrev pub state_name : HealthState → String
state_name HealthState.healthy = "healthy"
state_name HealthState.backoff = "backoff"
state_name HealthState.flapping = "flapping"
state_name HealthState.failed = "failed"

-- `h.state == HealthState::Failed`
abbrev pub is_failed : HealthState → Bool
is_failed HealthState.failed = true
is_failed _ = false

abbrev pub has_failed : RoleHealth → Bool
has_failed h = is_failed h.state

unfoldable pub handle : List RoleHealth → Response
handle snapshot =
    let any_failed = any has_failed snapshot in
    record {
      code = if any_failed then 503 else 200;
      reason = if any_failed then "Service Unavailable" else "OK";
      body = record {
        status = if any_failed then "degraded" else "ok";
        roles = map (λ h. record { role = h.role; state = state_name h.state }) snapshot;
      };
    }

abbrev pub buffer_size : ℕ
buffer_size = 4096

abbrev starts_blank : List ℕ → Bool
starts_blank (a ∷ b ∷ c ∷ d ∷ rest) = nat_beq a 13 && nat_beq b 10 && nat_beq c 13 && nat_beq d 10
starts_blank _ = false

-- A window of four bytes is an empty line's.
abbrev pub has_blank : List ℕ → Bool
has_blank [] = false
has_blank (b ∷ bs) = let rest = has_blank bs in starts_blank (b ∷ bs) || rest

-- Whether the drain returns by the last of the reads; if not, it still reads.
unfoldable pub drain_headers : List ℕ → List (List ℕ) → Bool
drain_headers buf [] = false
drain_headers buf ([] ∷ reads) = true
drain_headers buf ((b ∷ bs) ∷ reads) =
    let total = buf ++ b ∷ bs in
    let rest = drain_headers total reads in
    has_blank total || nat_beq (length total) buffer_size || rest
