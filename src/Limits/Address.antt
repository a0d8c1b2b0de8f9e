-- ===== src/Limits/Address.antt =====
-- `std::net::IpAddr`, the key of the rate limiter's table.
use five_nines_echo.Base.{ℕ, ◌≡◌, ◌↔◌, Bool, true, false, nat_beq, Key, arith}

pub data IpAddr : Type 0 where
  v4 : ℕ → IpAddr
  v6 : ℕ → IpAddr

unfoldable pub ip_beq : IpAddr → IpAddr → Bool
ip_beq (IpAddr.v4 a) (IpAddr.v4 b) = nat_beq a b
ip_beq (IpAddr.v4 a) (IpAddr.v6 b) = false
ip_beq (IpAddr.v6 a) (IpAddr.v4 b) = false
ip_beq (IpAddr.v6 a) (IpAddr.v6 b) = nat_beq a b

pub ip_beq_iff : (a b : IpAddr) → (ip_beq a b ≡ true) ↔ (a ≡ b)
unfolding ip_beq
ip_beq_iff (IpAddr.v4 a) (IpAddr.v4 b) = ground arith
ip_beq_iff (IpAddr.v4 a) (IpAddr.v6 b) = ground arith
ip_beq_iff (IpAddr.v6 a) (IpAddr.v4 b) = ground arith
ip_beq_iff (IpAddr.v6 a) (IpAddr.v6 b) = ground arith

instance abbrev pub ip_key : Key IpAddr
ip_key = record { agree = ip_beq; agrees = ip_beq_iff }
