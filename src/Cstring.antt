-- ===== src/Cstring.antt =====
-- sw/examples/shell.c: shell_strlen, shell_strcmp, shell_memset (String Utilities);
-- sw/lib/vsync_posix.c: memcpy, memset.
-- A pointer is the list of bytes from its address on.
pub mod Compare
pub mod Memory
-- `while (s[len] != '\0') len++;`: the list is what `len` has not passed.
use vsync.Prelude.{
  List, Option, [], if◌then◌else◌, none, not, some, sub_ℕ, suc, zero, ℕ, ℤ, ◌%◌, ◌&&◌, ◌+◌, ◌==◌,
  ◌∷◌,
}

scan_len : List ℕ → ℕ → ℕ
scan_len [] len = len
scan_len (c ∷ s) len = let rest = scan_len s (len + 1) in if c == 0 then len else rest

unfoldable pub shell_strlen : List ℕ → ℕ
unfolding scan_len
shell_strlen s = scan_len s 0

-- `while (*a && *a == *b) { a++; b++; } return *a - *b;`
unfoldable pub shell_strcmp : List ℕ → List ℕ → ℤ
shell_strcmp [] [] = sub_ℕ 0 0
shell_strcmp [] (d ∷ b) = sub_ℕ 0 d
shell_strcmp (c ∷ a) [] = sub_ℕ c 0
shell_strcmp (c ∷ a) (d ∷ b) =
    let rest = shell_strcmp a b in if not (c == 0) && c == d then rest else sub_ℕ c d

-- `for (i = 0; i < n; i++) p[i] = (unsigned char)c;`. `none` is a write past the memory.
unfoldable pub shell_memset : List ℕ → ℕ → ℕ → Option (List ℕ)
shell_memset p c zero = some p
shell_memset [] c (suc n) = none
shell_memset (x ∷ p) c (suc n) = elim (shell_memset p c n) [
  | none ↦ none
  | some q ↦ some ((c % 256) ∷ q)
]

-- `while (n--) *d++ = *s++;`. `none` is an access past either memory.
unfoldable pub memcpy : List ℕ → List ℕ → ℕ → Option (List ℕ)
memcpy d s zero = some d
memcpy [] s (suc n) = none
memcpy (x ∷ d) [] (suc n) = none
memcpy (x ∷ d) (c ∷ s) (suc n) = elim (memcpy d s n) [ none ↦ none | some q ↦ some (c ∷ q) ]

-- `while (n--) *p++ = (unsigned char)c;`. `none` is a write past the memory.
unfoldable pub memset : List ℕ → ℕ → ℕ → Option (List ℕ)
memset p c zero = some p
memset [] c (suc n) = none
memset (x ∷ p) c (suc n) = elim (memset p c n) [ none ↦ none | some q ↦ some ((c % 256) ∷ q) ]
