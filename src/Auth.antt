-- ===== src/Auth.antt =====
-- auth.rs: which peer may talk on a control or admin socket. The peer's uid, read from the socket by
-- the kernel (`SO_PEERCRED`, `getpeereid`), is an argument, and so is the process's own effective uid.
pub mod Reload
mod Tests
use five_nines_echo.Base.{
  ℕ, Bool, Option, none, some, List, [], ◌∷◌, ◌⊎◌, inl, inr, any, nat_beq, if◌then◌else◌,
}

-- A `HashSet` of uids.
pub record PeerAllowlist : Type 0 where
  pub uids : List ℕ

abbrev pub from_uids : List ℕ → PeerAllowlist
from_uids uids = record { uids = uids }

abbrev pub current_user_only : ℕ → PeerAllowlist
current_user_only effective = from_uids (effective ∷ [])

abbrev pub from_config : ℕ → List ℕ → PeerAllowlist
from_config effective [] = current_user_only effective
from_config effective (u ∷ us) = from_uids (u ∷ us)

abbrev pub contains : ℕ → PeerAllowlist → Bool
contains uid allow = any (nat_beq uid) allow.uids

pub data AuthError : Type 0 where
  no_credentials : AuthError
  rejected_peer : ℕ → AuthError

unfoldable pub check_peer : Option ℕ → PeerAllowlist → AuthError ⊎ ℕ
check_peer none allow = inl AuthError.no_credentials
check_peer (some uid) allow =
    if contains uid allow then inr uid else inl (AuthError.rejected_peer uid)
