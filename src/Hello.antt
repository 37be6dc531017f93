-- ===== src/Hello.antt =====
-- sw/examples/hello_uart.c.
pub mod Greeting
use vsync.Prelude.{List, [], codes, if◌then◌else◌, ℕ, ◌++◌, ◌∷◌}
use vsync.Machine.{M, pure, fault, ◌>>=◌, ◌>>◌}
use vsync.Locals.{minus_one}
use vsync.Posix.Numbers.{fd_type_uart}
use vsync.Posix.{Kernel, is_negative, open_fd, write, close}

-- `const char msg[]`, which ends in a NUL.
abbrev pub msg : List ℕ
msg = codes "Hello VSync!\n" ++ (0 ∷ [])

module _ {S : Type 0} (k : Kernel S) where
  -- main after open.
  unfoldable pub greet : ℕ → M S ℕ
  unfolding close
  greet fd = do ret ← write k fd msg 14; ret' ← close k fd; pure 0

  unfoldable pub main : M S ℕ
  unfolding open_fd
  main = do fd ← open_fd k fd_type_uart 0; if is_negative fd then pure minus_one else greet fd
