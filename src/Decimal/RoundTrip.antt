-- ===== src/Decimal/RoundTrip.antt =====
-- dec_to_uint32 reads back what uint32_to_dec prints.
use vsync.Prelude.{
  List, [], all, all-append, arith, cstr, cstr-append, length, not, pow-suc, refl, some, suc, true,
  zero, ℕ, ◌%◌, ◌++◌, ◌+◌, ◌/◌, ◌<◌, ◌==◌, ◌^◌, ◌∷◌, ◌≡◌, ◌≢◌,
}
use vsync.Decimal.{dec_to_uint32, uint32_to_dec}
use vsync.Decimal.Parse.{is_digit, dec_value, dec_to_uint32_complete}
use vsync.Decimal.Print.{dec_digits, dec_text, uint32_to_dec-text}

dec_value-append : (s t : List ℕ) (val : ℕ) → dec_value val (s ++ t) ≡ dec_value (dec_value val s) t
dec_value-append [] t val = refl
dec_value-append (c ∷ s) t val = dec_value-append s t _

dec_value-dec_digits : (k v : ℕ) → v < 10 ^ k → dec_value 0 (dec_digits k v) ≡ v
unfolding dec_digits
dec_value-dec_digits zero v h = omega arith
dec_value-dec_digits (suc k) v h = ground (
  arith,
  pow-suc 10 k,
  dec_value-dec_digits k (v / 10),
  dec_value-append (dec_digits k (v / 10)) ((b'0' + v % 10) ∷ []) 0,
)

all-dec_digits : (k v : ℕ) → all is_digit (dec_digits k v) ≡ true
unfolding dec_digits
all-dec_digits zero v = refl
all-dec_digits (suc k) v = ground (
  arith,
  all-dec_digits k (v / 10),
  all-append is_digit (dec_digits k (v / 10)) ((b'0' + v % 10) ∷ []),
)

pub all-dec_text : (v : ℕ) → all is_digit (dec_text v) ≡ true
all-dec_text v = ground (arith, all-dec_digits 10 v)

pub dec_value-dec_text : (v : ℕ) → v < 2 ^ 32 → dec_value 0 (dec_text v) ≡ v
dec_value-dec_text v h = ground (arith, dec_value-dec_digits 10 v)

dec_text-ne-nil : (v : ℕ) → v < 2 ^ 32 → dec_text v ≢ []
dec_text-ne-nil v h = ground (arith, dec_value-dec_digits 10 v)

pub digits-nonzero : (s : List ℕ) → all is_digit s ≡ true → all (λ c. not (c == 0)) s ≡ true
digits-nonzero [] h = refl
digits-nonzero (c ∷ s) h = ground (arith, digits-nonzero s)

pub cstr-dec_text : (v : ℕ) (t : List ℕ) → cstr (dec_text v ++ 0 ∷ t) ≡ dec_text v
cstr-dec_text v t = cstr-append (dec_text v) t (digits-nonzero (dec_text v) (all-dec_text v))

-- For every 32-bit value, `uint32_to_dec` returns a pointer (it does not leave dec_buf), and
-- `dec_to_uint32` reads the text there as the value.
pub dec_to_uint32-uint32_to_dec :
    (v : ℕ) (dec_buf : List ℕ)
    → v < 2 ^ 32
    → length dec_buf ≡ 11
    → (s : List ℕ) × (uint32_to_dec v dec_buf ≡ some s) × (dec_to_uint32 s ≡ some v)
dec_to_uint32-uint32_to_dec v dec_buf h len = (
  dec_text v ++ 0 ∷ [],
  uint32_to_dec-text v dec_buf h len,
  ground (
    arith,
    cstr-dec_text v [],
    dec_value-dec_text v,
    dec_to_uint32_complete (dec_text v ++ 0 ∷ []),
    all-dec_text v,
    dec_text-ne-nil v,
  ),
)
