-- ===== src/Locals.antt =====
-- sw/lib/vsync_posix.h: timespec_t. The example programs pass the addresses of local variables to
-- system calls; where the variables are, and what the memory holds, is a parameter.

use vsync.Prelude.{ℕ, ◌-◌, ◌^◌}

pub record Timespec : Type 0 where
  pub tv_sec : ℕ
  pub tv_nsec : ℕ

-- Memory of the caller: what a write of a timespec_t does, and the word at an address.
pub record Locals (S : Type 0) : Type 0 where
  pub set_timespec : ℕ → Timespec → S → S
  pub word : ℕ → S → ℕ

-- The `int` -1.
abbrev pub minus_one : ℕ
minus_one = 2 ^ 32 - 1
