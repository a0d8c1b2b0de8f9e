-- ===== src/Metrics/Tests.antt =====
-- metrics.rs: the theorem at a concrete input.
use five_nines_echo.Base.{none}
use five_nines_echo.Control.{WorkerStatus}

abbrev plain : WorkerStatus
plain = record {
  role = "plain";
  pid = 41;
  generation = 2;
  started_at_unix_ms = 0;
  in_flight = 3;
  listener_addr = none;
  rate_limiter_stats = none;
}
