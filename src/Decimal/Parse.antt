-- ===== src/Decimal/Parse.antt =====
-- What dec_to_uint32 accepts and the value that it returns.
use vsync.Prelude.{
  Bool, List, [], all, arith, cstr, leb, length, some, true, ℕ, ◌&&◌, ◌*◌, ◌+◌, ◌-◌, ◌<◌, ◌^◌, ◌∷◌,
  ◌≡◌, ◌≢◌, ◌≤◌,
}
use vsync.Decimal.{dec_shift}
use vsync.Decimal.{dec_done, dec_loop, dec_to_uint32}

abbrev pub is_digit : ℕ → Bool
is_digit c = leb b'0' c && leb c b'9'

-- The number that decimal digits spell behind `val`, with no bound.
abbrev pub dec_value : ℕ → List ℕ → ℕ
dec_value val [] = val
dec_value val (c ∷ s) = dec_value (val * 10 + (c - b'0')) s

-- One or more decimal digits.
abbrev pub IsNumber : List ℕ → Type 0
IsNumber t = (all is_digit t ≡ true) × (t ≢ [])

pub le-dec_value : (s : List ℕ) (val : ℕ) → val ≤ dec_value val s
le-dec_value [] val = omega arith
le-dec_value (c ∷ s) val = omega (arith, le-dec_value s (val * 10 + (c - b'0')))

pub dec_loop_complete :
    (s : List ℕ) (val digits : ℕ)
    → all is_digit (cstr s) ≡ true
    → dec_value val (cstr s) < 2 ^ 32
    → dec_loop s val digits ≡ dec_done (dec_value val (cstr s)) (digits + length (cstr s))
unfolding dec_loop dec_shift
dec_loop_complete [] val digits h v = ground arith
dec_loop_complete (c ∷ s) val digits h v = ground (
  arith,
  le-dec_value (cstr s) (val * 10 + (c - b'0')),
  dec_loop_complete s (val * 10 + (c - b'0')) (digits + 1),
)

-- Decimal digits of a number that fits 32 bits are always accepted, with exactly that number.
pub dec_to_uint32_complete :
    (s : List ℕ)
    → IsNumber (cstr s)
    → dec_value 0 (cstr s) < 2 ^ 32
    → dec_to_uint32 s ≡ some (dec_value 0 (cstr s))
unfolding dec_to_uint32 dec_done
dec_to_uint32_complete s (h, n) v = ground (arith, dec_loop_complete s 0 0)
