-- ===== src/Decimal/Print.antt =====
-- uint32_to_dec: the digits that it writes, and that they fit dec_buf.
use vsync.Prelude.{
  Bool-cases, List, [], ap, append_assoc, arith, drop, drop-set, drop_all, if◌then◌else◌, inl, inr,
  length, length-set, ltb, pow-suc, refl, set, some, suc, zero, ℕ, ◌%◌, ◌++◌, ◌+◌, ◌/◌, ◌<◌, ◌==◌,
  ◌^◌, ◌∙◌, ◌∷◌, ◌≡◌, ◌≤◌,
}
use vsync.Decimal.{dec_fill, uint32_to_dec}

-- The decimal digits of `v`, highest first and without leading zeros, for `v` below 10 ^ k.
unfoldable pub dec_digits : ℕ → ℕ → List ℕ
dec_digits zero v = []
dec_digits (suc k) v =
    let more = dec_digits k (v / 10) ++ ((b'0' + v % 10) ∷ []) in if ltb 0 v then more else []

-- With at least as many free places as digits the loop stays inside the buffer: the digits stand
-- in front of what was there, from the returned place on.
dec_fill-digits :
    (k v : ℕ) (buf : List ℕ)
    → v < 10 ^ k
    → k ≤ length buf
    → (r : ℕ × List ℕ) × (dec_fill k v buf ≡ some r) × (drop r.0 r.1 ≡ dec_digits k v ++ drop k buf)
unfolding dec_fill dec_digits
dec_fill-digits zero v buf h len = ((0, buf), ground arith, refl)
dec_fill-digits (suc k) v buf h len = elim (Bool-cases (ltb 0 v)) [
  | inr done ↦ ((suc k, buf), rw done, rw done)
  | inl more ↦
      let c = b'0' + v % 10 in
      let (r, e, d) =
        dec_fill-digits k (v / 10) (set buf k c) (omega (arith, pow-suc 10 k))
          (omega (arith, length-set buf k c)) in
      (r, rw more e, rw more (d ∙ rw (drop-set k buf c (omega arith), append_assoc)))
]

-- The text of `v`: its digits, or "0".
abbrev pub dec_text : ℕ → List ℕ
dec_text v = if v == 0 then b'0' ∷ [] else dec_digits 10 v

terminator : (dec_buf : List ℕ) → length dec_buf ≡ 11 → drop 10 (set dec_buf 10 0) ≡ 0 ∷ []
terminator dec_buf len = rw (drop-set 10 dec_buf 0 (omega (arith, len)), drop_all dec_buf 11 len)

-- For every dec_buf of eleven bytes and every 32-bit value the loop stays inside the buffer, and
-- the returned pointer is at the text of the value, with its terminator.
pub uint32_to_dec-text :
    (v : ℕ) (dec_buf : List ℕ)
    → v < 2 ^ 32
    → length dec_buf ≡ 11
    → uint32_to_dec v dec_buf ≡ some (dec_text v ++ 0 ∷ [])
unfolding uint32_to_dec
uint32_to_dec-text v dec_buf h len =
    let buf = set dec_buf 10 0 in
    let size = length-set dec_buf 10 0 in
    elim (Bool-cases (v == 0)) [
      | inl z ↦ rw z (rw (drop-set 9 buf b'0' (omega (arith, size, len)), terminator dec_buf len))
      | inr n ↦
          let (r, e, d) = dec_fill-digits 10 v buf (omega arith) (omega (arith, size, len)) in
          rw (n, e) (ap some (d ∙ rw (terminator dec_buf len)))
    ]
