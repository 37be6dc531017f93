-- ===== src/Prelude/Text.antt =====
-- C text. A pointer to text is the list of bytes from that address on; the text ends at the first
-- zero byte, or where the list does.
use Prim.Native.Nat.{ℕ}
use Prim.Native.Char.{code}
use Prim.Native.String.{String}
use mathlib.Core.List.{List, [], ◌∷◌, ◌++◌}
use mathlib.Core.Path.{◌≡◌, refl}
use mathlib.Core.Bool.{true, not}
use native.Mathlib.Omega.{arith}
use vsync.Prelude.Lists.{all, set}
use vsync.Prelude.Tests.{◌==◌, if◌then◌else◌}

-- The code points of a literal, which are its bytes: every literal is ASCII.
abbrev pub codes : String → List ℕ
codes String.[] = []
codes (String.◌∷◌ c s) = code c ∷ codes s

-- The text that a pointer denotes.
abbrev pub cstr : List ℕ → List ℕ
cstr [] = []
cstr (c ∷ s) = if c == 0 then [] else c ∷ cstr s

-- A text without zero bytes, written with its terminator, is read back.
pub cstr-append : (s t : List ℕ) → all (λ c. not (c == 0)) s ≡ true → cstr (s ++ 0 ∷ t) ≡ s
cstr-append [] t h = refl
cstr-append (c ∷ s) t h = ground (arith, cstr-append s t)

pub cstr-set_zero : (s : List ℕ) → cstr (set s 0 0) ≡ []
cstr-set_zero [] = refl
cstr-set_zero (c ∷ s) = refl
