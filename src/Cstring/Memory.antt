-- ===== src/Cstring/Memory.antt =====
-- shell_memset and memcpy: what they write, and that they stay inside the memory.
use vsync.Prelude.{
  List, [], arith, drop, length, refl, replicate, some, suc, take, zero, ℕ, ◌%◌, ◌++◌, ◌∷◌, ◌≡◌,
  ◌≤◌,
}
use vsync.Cstring.{shell_memset, memcpy, memset}

-- Filling `n` bytes of a memory of at least `n` bytes succeeds, sets exactly those to the low byte
-- of `c`, and leaves the rest.
pub shell_memset_fills :
    (p : List ℕ) (c n : ℕ)
    → n ≤ length p
    → shell_memset p c n ≡ some (replicate n (c % 256) ++ drop n p)
unfolding shell_memset
shell_memset_fills p c zero h = refl
shell_memset_fills [] c (suc n) h = absurd (omega arith)
shell_memset_fills (x ∷ p) c (suc n) h = ground (arith, shell_memset_fills p c n)

-- Copying `n` bytes between memories of at least `n` bytes succeeds: the first `n` bytes are those
-- of the source, and the rest of the destination is unchanged.
pub memcpy_copies :
    (d s : List ℕ) (n : ℕ)
    → n ≤ length d
    → n ≤ length s
    → memcpy d s n ≡ some (take n s ++ drop n d)
unfolding memcpy
memcpy_copies d s zero hd hs = refl
memcpy_copies [] s (suc n) hd hs = absurd (omega arith)
memcpy_copies (x ∷ d) [] (suc n) hd hs = absurd (omega arith)
memcpy_copies (x ∷ d) (c ∷ s) (suc n) hd hs = ground (arith, memcpy_copies d s n)

-- memset of the library and shell_memset of the shell fill a memory alike, also past its end.
memset-shell_memset : (p : List ℕ) (c n : ℕ) → memset p c n ≡ shell_memset p c n
unfolding memset shell_memset
memset-shell_memset p c zero = refl
memset-shell_memset [] c (suc n) = refl
memset-shell_memset (x ∷ p) c (suc n) = rw (memset-shell_memset p c n) refl
