-- ===== src/Hex/Print.antt =====
-- uint32_to_hex writes eight digits and the terminator into hex_buf.
use vsync.Prelude.{
  List, [], all, all-append, append_assoc, arith, drop, drop-set, get_or, length, length-append,
  length-set, pow-suc, refl, set, set-drop_last, some, suc, zero, ℕ, ◌%◌, ◌++◌, ◌/◌, ◌<◌, ◌^◌, ◌∙◌,
  ◌∷◌, ◌≡◌, ◌≤◌,
}
use vsync.Hex.{true}
use vsync.Hex.Parse.{is_hex}
use vsync.Hex.{uint32_to_hex}
use vsync.Hex.Parse.{hex_value}
use vsync.Hex.{hextab, hex_fill}
use vsync.Hex.Parse.{digit_value}

-- The last `k` hexadecimal digits of `v`, highest first.
unfoldable pub hex_digits : ℕ → ℕ → List ℕ
hex_digits zero v = []
hex_digits (suc k) v = hex_digits k (v / 16) ++ (get_or hextab (v % 16) 0 ∷ [])

hex_fill-digits :
    (k v : ℕ) (buf : List ℕ) → k ≤ length buf → hex_fill k v buf ≡ hex_digits k v ++ drop k buf
unfolding hex_fill hex_digits
hex_fill-digits zero v buf h = refl
hex_fill-digits (suc k) v buf h =
    let c = get_or hextab (v % 16) 0 in
    hex_fill-digits k (v / 16) (set buf k c) (omega (arith, length-set buf k c))
    ∙ rw (drop-set k buf c (omega arith), append_assoc)

pub length-hex_digits : (k v : ℕ) → length (hex_digits k v) ≡ k
unfolding hex_digits
length-hex_digits zero v = refl
length-hex_digits (suc k) v = omega (
  arith,
  length-append (hex_digits k (v / 16)) (get_or hextab (v % 16) 0 ∷ []),
  length-hex_digits k (v / 16),
)

digit_value-hextab : (d : ℕ) → d < 16 → digit_value (get_or hextab d 0) ≡ some d
unfolding digit_value
digit_value-hextab d h = ground arith

hex_value-append : (s t : List ℕ) (val : ℕ) → hex_value val (s ++ t) ≡ hex_value (hex_value val s) t
hex_value-append [] t val = refl
hex_value-append (c ∷ s) t val = hex_value-append s t _

-- The digits are hexadecimal digits.
pub all-hex_digits : (k v : ℕ) → all is_hex (hex_digits k v) ≡ true
unfolding hex_digits
all-hex_digits zero v = refl
all-hex_digits (suc k) v = ground (
  arith,
  all-append is_hex (hex_digits k (v / 16)) (get_or hextab (v % 16) 0 ∷ []),
  all-hex_digits k (v / 16),
  digit_value-hextab (v % 16),
)

-- They spell the number, if it has no more of them.
pub hex_value-hex_digits : (k v : ℕ) → v < 16 ^ k → hex_value 0 (hex_digits k v) ≡ v
unfolding hex_digits
hex_value-hex_digits zero v h = omega arith
hex_value-hex_digits (suc k) v h = ground (
  arith,
  hex_value-append (hex_digits k (v / 16)) (get_or hextab (v % 16) 0 ∷ []) 0,
  hex_value-hex_digits k (v / 16),
  pow-suc 16 k,
  digit_value-hextab (v % 16),
)

-- For every hex_buf of nine bytes, `uint32_to_hex` fills it with eight digits and the terminator.
pub uint32_to_hex-digits :
    (v : ℕ) (hex_buf : List ℕ)
    → length hex_buf ≡ 9
    → uint32_to_hex v hex_buf ≡ hex_digits 8 v ++ (0 ∷ [])
unfolding uint32_to_hex hex_digits
uint32_to_hex-digits v hex_buf h =
    rw (hex_fill-digits 8 v hex_buf (omega arith), set-drop_last 8 hex_buf 0 h)
