-- ===== src/Decimal/Overflow.antt =====
-- The overflow test of dec_to_uint32, `val < prev`.
use vsync.Prelude.{
  List, [], all, arith, cstr, length, some, true, ℕ, ◌%◌, ◌*◌, ◌++◌, ◌+◌, ◌-◌, ◌<◌, ◌^◌, ◌∷◌, ◌≡◌,
  ◌≢◌, ◌≤◌,
}
use vsync.Decimal.Parse.{le-dec_value}
use vsync.Decimal.{dec_shift, dec_loop, dec_to_uint32}
use vsync.Decimal.Parse.{is_digit, dec_value, IsNumber}
use vsync.Decimal.Print.{dec_text}
use vsync.Decimal.RoundTrip.{all-dec_text, dec_value-dec_text}

dec_shift-wraps : (n c : ℕ) → dec_shift (n % 2 ^ 32) c ≡ (n * 10 + (c - b'0')) % 2 ^ 32
unfolding dec_shift
dec_shift-wraps n c = omega arith

dec_loop_sound :
    (s : List ℕ) (n digits : ℕ) {v : ℕ}
    → dec_loop s (n % 2 ^ 32) digits ≡ some v
    → (all is_digit (cstr s) ≡ true)
      × (v ≡ dec_value n (cstr s) % 2 ^ 32)
      × (digits + length (cstr s) ≢ 0)
unfolding dec_loop
dec_loop_sound [] n digits h = ground arith
dec_loop_sound (c ∷ s) n digits {v} h =
    ground (arith, dec_shift-wraps n c, dec_loop_sound s (n * 10 + (c - b'0')) (digits + 1) {v = v})

-- What `dec_to_uint32` accepts is one or more decimal digits, and the result is the number that
-- they spell modulo 2 ^ 32.
pub dec_to_uint32_sound :
    (s : List ℕ) {v : ℕ}
    → dec_to_uint32 s ≡ some v
    → IsNumber (cstr s) × (v ≡ dec_value 0 (cstr s) % 2 ^ 32)
unfolding dec_to_uint32
dec_to_uint32_sound s {v} h = ground (arith, dec_loop_sound s 0 0 {v = v})

-- The loop over digits whose number fits, with more text behind them.
dec_loop-append :
    (s t : List ℕ) (val digits : ℕ)
    → all is_digit s ≡ true
    → dec_value val s < 2 ^ 32
    → dec_loop (s ++ t) val digits ≡ dec_loop t (dec_value val s) (digits + length s)
unfolding dec_loop dec_shift
dec_loop-append [] t val digits h v = ground arith
dec_loop-append (c ∷ s) t val digits h v = ground (
  arith,
  le-dec_value s (val * 10 + (c - b'0')),
  dec_loop-append s t (val * 10 + (c - b'0')) (digits + 1),
)

-- One digit more wraps, and passes the test if the wrapped value is no less than the one before.
last_digit :
    (p d digits : ℕ)
    → d < 10
    → 2 ^ 32 + p ≤ p * 10 + d
    → p * 10 + d < 2 ^ 33
    → dec_loop ((b'0' + d) ∷ 0 ∷ []) p digits ≡ some (p * 10 + d - 2 ^ 32)
unfolding dec_loop dec_shift
last_digit p d digits hd lo hi = ground arith

-- The test misses overflows: on the digits of a 32-bit number `p` followed by a digit `d`, where
-- 10 p + d lies between 2 ^ 32 + p and 2 ^ 33, `dec_to_uint32` succeeds with 10 p + d - 2 ^ 32.
pub dec_to_uint32_wraps :
    (p d : ℕ)
    → d < 10
    → 2 ^ 32 + p ≤ p * 10 + d
    → p * 10 + d < 2 ^ 33
    → dec_to_uint32 (dec_text p ++ (b'0' + d) ∷ 0 ∷ []) ≡ some (p * 10 + d - 2 ^ 32)
unfolding dec_to_uint32
dec_to_uint32_wraps p d hd lo hi =
    let n = length (dec_text p) in
    ground (
      arith,
      dec_loop-append (dec_text p) ((b'0' + d) ∷ 0 ∷ []) 0 0,
      all-dec_text p,
      dec_value-dec_text p,
      last_digit p d (0 + n),
    )
