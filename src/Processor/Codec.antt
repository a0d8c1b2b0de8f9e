-- ===== src/Processor/Codec.antt =====
-- tokio_util's `LinesCodec` and `Framed`, which processor.rs only calls: what it relies on of them. A
-- decoder looks at the buffered bytes; `decode_eof` is asked when the peer sends no more.
use five_nines_echo.Base.{◌≡◌, ◌++◌}
use five_nines_echo.Handoff.{Bytes}

pub data Frame : Type 0 where
  pending : Frame
  line : Bytes → Bytes → Frame
  too_long : Frame

pub record Codec : Type 0 where
  pub decode : Bytes → Frame
  pub decode_eof : Bytes → Frame
  pub encode : Bytes → Bytes

-- A line is decoded from the front of the buffer, whatever has arrived behind it.
pub record IsStreaming (C : Codec) : Type 0 where
  pub decode-append :
      (buf more l rest : Bytes)
      → C.decode buf ≡ Frame.line l rest
      → C.decode (buf ++ more) ≡ Frame.line l (rest ++ more)
