-- ===== src/Readline/Keys.antt =====
-- What one key does: the tests of shell_readline against the line editor.
use vsync.Prelude.{
  Bool-cases, List, [], arith, codes, false, inl, inr, length, ltb, set, suc, true, ℕ, ◌&&◌, ◌-◌,
  ◌<◌, ◌∷◌, ◌≡◌,
}
use vsync.Readline.{choose}
use vsync.Readline.Edit.{is_erase, is_printable, is_edit, pop, key_line, key_echo}
use vsync.Readline.Buffer.{image, image-pop}

module _ {X : Type 0} (size c : ℕ) (st : List ℕ) (enter cancel erase store continue : X) where
  -- What the code does with a key that edits, and what the editor says of it.
  pub data Kind : Type 0 where
    erases :
        choose size (length st) c enter cancel erase store continue ≡ erase
        → key_line (size - 1) st c ≡ pop st
        → key_echo (size - 1) st c ≡ codes "\u{8} \u{8}"
        → 0 < length st
        → Kind
    ignored :
        choose size (length st) c enter cancel erase store continue ≡ continue
        → key_line (size - 1) st c ≡ st
        → key_echo (size - 1) st c ≡ []
        → Kind
    typed :
        choose size (length st) c enter cancel erase store continue ≡ store
        → key_line (size - 1) st c ≡ c ∷ st
        → key_echo (size - 1) st c ≡ c ∷ []
        → length st < size - 1
        → Kind

  kind_erase : is_edit c ≡ true → is_erase c ≡ true → Kind
  unfolding choose key_line key_echo
  kind_erase ed e = elim (Bool-cases (ltb 0 (length st))) [
    | inl p ↦ erases (ground arith) (ground arith) (ground arith) (ground arith)
    | inr z ↦ ignored (ground arith) (pop_empty st (ground arith)) (ground arith)
  ]
    where
      pop_empty : (st : List ℕ) → length st ≡ 0 → key_line (size - 1) st c ≡ st
      pop_empty [] z = ground arith
      pop_empty (d ∷ st') z = absurd (omega (arith, z))

  kind_other : is_edit c ≡ true → is_erase c ≡ false → Kind
  unfolding choose key_line key_echo
  kind_other ed n = elim (Bool-cases (is_printable c && ltb (length st) (size - 1))) [
    | inl p ↦ typed (ground arith) (ground arith) (ground arith) (ground arith)
    | inr q ↦ ignored (ground arith) (ground arith) (ground arith)
  ]

  pub kind : is_edit c ≡ true → Kind
  kind ed = elim (Bool-cases (is_erase c)) [ inl e ↦ kind_erase ed e | inr n ↦ kind_other ed n ]

-- A buffer after a character is taken away.
pub erased :
    (size : ℕ) (st : List ℕ)
    → 0 < length st
    → length st < size
    → (set (image size st) (length st - 1) 0 ≡ image size (pop st))
      × (length st - 1 ≡ length (pop st))
erased size [] p room = absurd (omega (arith, p))
erased size (c ∷ st) p room =
    let e : suc (length st) - 1 ≡ length st = omega arith in
    (rw e (image-pop size st c (omega (arith, room))), e)
