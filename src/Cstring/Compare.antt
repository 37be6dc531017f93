-- ===== src/Cstring/Compare.antt =====
-- shell_strlen and shell_strcmp against the texts that the pointers denote.
use vsync.Prelude.{List, [], arith, cstr, length, pos, refl, ℕ, ◌+◌, ◌↔◌, ◌∷◌, ◌≡◌}
use vsync.Cstring.{scan_len, shell_strlen, shell_strcmp}

scan_len-cstr : (s : List ℕ) (len : ℕ) → scan_len s len ≡ len + length (cstr s)
unfolding scan_len
scan_len-cstr [] len = omega arith
scan_len-cstr (c ∷ s) len = ground (arith, scan_len-cstr s (len + 1))

-- `shell_strlen` returns the number of bytes before the terminator.
pub shell_strlen-cstr : (s : List ℕ) → shell_strlen s ≡ length (cstr s)
unfolding shell_strlen
shell_strlen-cstr s = omega (arith, scan_len-cstr s 0)

strcmp_sound : (a b : List ℕ) → shell_strcmp a b ≡ pos 0 → cstr a ≡ cstr b
unfolding shell_strcmp
strcmp_sound [] [] h = refl
strcmp_sound [] (d ∷ b) h = ground arith
strcmp_sound (c ∷ a) [] h = ground arith
strcmp_sound (c ∷ a) (d ∷ b) h = ground (arith, strcmp_sound a b)

strcmp_complete : (a b : List ℕ) → cstr a ≡ cstr b → shell_strcmp a b ≡ pos 0
unfolding shell_strcmp
strcmp_complete [] [] h = refl
strcmp_complete [] (d ∷ b) h = ground arith
strcmp_complete (c ∷ a) [] h = ground arith
strcmp_complete (c ∷ a) (d ∷ b) h = ground (arith, strcmp_complete a b)

-- `shell_strcmp` returns 0 exactly when both pointers denote the same text.
pub shell_strcmp_zero_iff : (a b : List ℕ) → (shell_strcmp a b ≡ pos 0) ↔ (cstr a ≡ cstr b)
shell_strcmp_zero_iff a b = (strcmp_sound a b, strcmp_complete a b)
