-- ===== src/Decimal.antt =====
-- sw/examples/shell.c: dec_to_uint32 and uint32_to_dec, with dec_buf.
pub mod Parse
pub mod Print
pub mod RoundTrip
pub mod Overflow
-- What follows the loop: at least one digit was read.
use vsync.Prelude.{
  List, Option, [], drop, if◌then◌else◌, ltb, none, replicate, set, some, suc, zero, ℕ, ◌%◌, ◌*◌,
  ◌+◌, ◌-◌, ◌/◌, ◌==◌, ◌^◌, ◌||◌, ◌∷◌,
}

unfoldable pub dec_done : ℕ → ℕ → Option ℕ
dec_done val digits = if digits == 0 then none else some val

-- `val = val * 10 + (uint32_t)(*s - '0')` on a uint32_t.
unfoldable pub dec_shift : ℕ → ℕ → ℕ
dec_shift val c = (val * 10 + (c - b'0')) % 2 ^ 32

-- The loop `while (*s)`, over `val` and `digits`; `none` is the return of -1.
unfoldable pub dec_loop : List ℕ → ℕ → ℕ → Option ℕ
unfolding dec_done
dec_loop [] val digits = dec_done val digits
dec_loop (c ∷ s) val digits =
    if c == 0
    then dec_done val digits
    else if ltb c b'0' || ltb b'9' c
    then none
    else if ltb (dec_shift val c) val
    then none
    else dec_loop s (dec_shift val c) (digits + 1)

unfoldable pub dec_to_uint32 : List ℕ → Option ℕ
unfolding dec_loop
dec_to_uint32 s = dec_loop s 0 0

-- The loop `while (val > 0) { dec_buf[--i] = '0' + (char)(val % 10); val /= 10; }`. It returns the
-- last `i` and the buffer; `none` would be a write in front of dec_buf.
unfoldable pub dec_fill : ℕ → ℕ → List ℕ → Option (ℕ × List ℕ)
dec_fill zero val buf = if ltb 0 val then none else some (0, buf)
dec_fill (suc i) val buf =
    let rest = dec_fill i (val / 10) (set buf i (b'0' + val % 10)) in
    if ltb 0 val then rest else some (suc i, buf)

-- The text from the returned pointer `&dec_buf[i]` on.
unfoldable pub uint32_to_dec : ℕ → List ℕ → Option (List ℕ)
uint32_to_dec val dec_buf =
    let buf = set dec_buf 10 0 in
    if val == 0
    then some (drop 9 (set buf 9 b'0'))
    else elim (dec_fill 10 val buf) [ none ↦ none | some (i, buf') ↦ some (drop i buf') ]

abbrev pub dec_buf_init : List ℕ
dec_buf_init = replicate 11 0
