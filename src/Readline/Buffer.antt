-- ===== src/Readline/Buffer.antt =====
-- The buffer that stands for a line: its text, and zeros up to the size.
use vsync.Prelude.{
  List, [], ap, append_assoc, arith, length, length-append, length-replicate, refl, replicate, set,
  set-length, suc, ℕ, ◌++◌, ◌-◌, ◌<◌, ◌∷◌, ◌≡◌,
}
use vsync.Readline.Edit.{text_of}

unfoldable pub image : ℕ → List ℕ → List ℕ
image size st = text_of st ++ replicate (size - length st) 0

pub length-text_of : (st : List ℕ) → length (text_of st) ≡ length st
length-text_of [] = refl
length-text_of (c ∷ st) = omega (arith, length-append (text_of st) (c ∷ []), length-text_of st)

pub length-image : (size : ℕ) (st : List ℕ) → length st < size → length (image size st) ≡ size
unfolding image
length-image size st h = omega (
  arith,
  length-append (text_of st) (replicate (size - length st) 0),
  length-text_of st,
  length-replicate {A = ℕ} (size - length st) 0,
)

-- A free place after the line.
pub free : (size n : ℕ) → n < size → replicate {A = ℕ} (size - n) 0 ≡ 0 ∷ replicate (size - suc n) 0
free size n h =
    let e : size - n ≡ suc (size - suc n) = omega arith in ap (λ (k : ℕ). replicate {A = ℕ} k 0) e

pub image-push :
    (size : ℕ) (st : List ℕ) (c : ℕ)
    → length st < size
    → set (image size st) (length st) c ≡ image size (c ∷ st)
unfolding image
image-push size st c h = rw (
  ← length-text_of st,
  set-length (text_of st) _ c,
  length-text_of st,
  free size (length st) h,
  append_assoc,
)

pub image-pop :
    (size : ℕ) (st : List ℕ) (c : ℕ)
    → length st < size
    → set (image size (c ∷ st)) (length st) 0 ≡ image size st
unfolding image
image-pop size st c h = rw (
  append_assoc,
  ← length-text_of st,
  set-length (text_of st) _ 0,
  length-text_of st,
  free size (length st) h,
)

pub image-end :
    (size : ℕ) (st : List ℕ) → length st < size → set (image size st) (length st) 0 ≡ image size st
unfolding image
image-end size st h =
    rw
      (← length-text_of st, set-length (text_of st) _ 0, length-text_of st, free size (length st) h)
