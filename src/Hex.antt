-- ===== src/Hex.antt =====
-- sw/examples/shell.c: hex_to_uint32 and uint32_to_hex, with hex_buf.
pub mod Parse
pub mod Print
pub mod RoundTrip
pub mod Word
-- The value of one digit, or `none` for "invalid character".
use vsync.Prelude.{
  List, Option, [], bit_or, codes, false, get_or, if◌then◌else◌, leb, ltb, none, replicate, set,
  some, suc, true, zero, ℕ, ◌%◌, ◌&&◌, ◌*◌, ◌+◌, ◌-◌, ◌/◌, ◌==◌, ◌^◌, ◌||◌, ◌∷◌,
}

unfoldable pub hex_nibble : ℕ → Option ℕ
hex_nibble c =
    if leb b'0' c && leb c b'9'
    then some (c - b'0')
    else if leb b'a' c && leb c b'f'
    then some (c - b'a' + 10)
    else if leb b'A' c && leb c b'F'
    then some (c - b'A' + 10)
    else none

-- What follows the loop: at least one digit was read.
unfoldable pub hex_done : ℕ → ℕ → Option ℕ
hex_done val digits = if digits == 0 then none else some val

-- `val = (val << 4) | nib` on a uint32_t.
unfoldable pub hex_shift : ℕ → ℕ → ℕ
hex_shift val nib = bit_or (val * 2 ^ 4 % 2 ^ 32) nib

-- The loop `while (*s)`, over `val` and `digits`; `none` is the return of -1.
unfoldable pub hex_loop : List ℕ → ℕ → ℕ → Option ℕ
unfolding hex_done
hex_loop [] val digits = hex_done val digits
hex_loop (c ∷ s) val digits = elim (c == 0) [
  | true ↦ hex_done val digits
  | false ↦ elim (hex_nibble c) [
    | none ↦ none
    | some nib ↦ if ltb 8 (digits + 1) then none else hex_loop s (hex_shift val nib) (digits + 1)
  ]
]

-- An optional "0x" or "0X" is passed over.
unfoldable pub skip_prefix : List ℕ → List ℕ
skip_prefix (c ∷ x ∷ s) = if c == b'0' && (x == b'x' || x == b'X') then s else c ∷ x ∷ s
skip_prefix s = s

unfoldable pub hex_to_uint32 : List ℕ → Option ℕ
unfolding hex_loop skip_prefix hex_nibble hex_shift
hex_to_uint32 s = hex_loop (skip_prefix s) 0 0

abbrev pub hextab : List ℕ
hextab = codes "0123456789ABCDEF"

-- The loop `for (int i = 7; i >= 0; i--)`; the first argument is `i + 1`.
unfoldable pub hex_fill : ℕ → ℕ → List ℕ → List ℕ
hex_fill zero val buf = buf
hex_fill (suc i) val buf = hex_fill i (val / 2 ^ 4) (set buf i (get_or hextab (val % 16) 0))

-- The new contents of hex_buf, to which the returned pointer points.
unfoldable pub uint32_to_hex : ℕ → List ℕ → List ℕ
unfolding hex_fill
uint32_to_hex val hex_buf = set (hex_fill 8 val hex_buf) 8 0

abbrev pub hex_buf_init : List ℕ
hex_buf_init = replicate 9 0
