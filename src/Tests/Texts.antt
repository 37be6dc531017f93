-- ===== src/Tests/Texts.antt =====
-- Texts, numbers and command lines.
use vsync.Prelude.{
  List, [], arith, codes, cstr, map, refl, some, ℕ, ◌%◌, ◌*◌, ◌++◌, ◌+◌, ◌/◌, ◌^◌, ◌↔◌, ◌∷◌, ◌≡◌,
}
use vsync.Hw.{uart_baud_div_calc}
use vsync.Args.Words.{words_from}
use vsync.Hex.{hex_to_uint32, uint32_to_hex, hex_buf_init}
use vsync.Hex.Parse.{hex_meaning, hex_to_uint32_exact}
use vsync.Hex.RoundTrip.{hex_to_uint32-uint32_to_hex}
use vsync.Decimal.{dec_shift, dec_to_uint32, uint32_to_dec, dec_buf_init}
use vsync.Decimal.Parse.{IsNumber, dec_value, dec_to_uint32_complete}
use vsync.Decimal.Print.{dec_text, uint32_to_dec-text}
use vsync.Decimal.RoundTrip.{dec_to_uint32-uint32_to_dec}
use vsync.Decimal.Overflow.{dec_to_uint32_sound, dec_to_uint32_wraps}
use vsync.Div64.{div64by32}
use vsync.Div64.Quotient.{div64by32-div}
use vsync.Args.{parse_args, arg_text}
use vsync.Args.Bounds.{Bounded, parse_args-Bounded}
use vsync.Args.Tokens.{parse_args-words}
use vsync.Shell.{find_command, cmd_table, gpio}
use vsync.Shell.Table.{command_name, find_command_iff}

hex_to_uint32_exact_example : hex_to_uint32 (codes "0xBEEF") ≡ hex_meaning (codes "0xBEEF")
hex_to_uint32_exact_example = hex_to_uint32_exact (codes "0xBEEF")

hex_to_uint32-uint32_to_hex_example :
    (hex_to_uint32 (uint32_to_hex 0xDEAD_BEEF hex_buf_init) ≡ some 0xDEAD_BEEF)
    × (hex_to_uint32 (codes "0x" ++ uint32_to_hex 0xDEAD_BEEF hex_buf_init) ≡ some 0xDEAD_BEEF)
hex_to_uint32-uint32_to_hex_example =
    hex_to_uint32-uint32_to_hex 0xDEAD_BEEF hex_buf_init (omega arith) refl

dec_to_uint32_complete_example : dec_to_uint32 (codes "4294967295") ≡ some 4_294_967_295
dec_to_uint32_complete_example =
    dec_to_uint32_complete (codes "4294967295") (refl, ground arith) (omega arith)

dec_to_uint32_sound_example :
    IsNumber (cstr (codes "42")) × (42 ≡ dec_value 0 (cstr (codes "42")) % 2 ^ 32)
unfolding dec_to_uint32 dec_shift
dec_to_uint32_sound_example = dec_to_uint32_sound (codes "42") {v = 42} refl

dec_to_uint32_wraps_example :
    dec_to_uint32 (dec_text 500_000_000 ++ b'0' ∷ 0 ∷ []) ≡ some 705_032_704
dec_to_uint32_wraps_example =
    dec_to_uint32_wraps 500_000_000 0 (omega arith) (omega arith) (omega arith)

uint32_to_dec-text_example : uint32_to_dec 65_536 dec_buf_init ≡ some (dec_text 65_536 ++ 0 ∷ [])
uint32_to_dec-text_example = uint32_to_dec-text 65_536 dec_buf_init (omega arith) refl

dec_to_uint32-uint32_to_dec_example :
    (s : List ℕ) × (uint32_to_dec 4_294_967_295 dec_buf_init ≡ some s)
    × (dec_to_uint32 s ≡ some 4_294_967_295)
dec_to_uint32-uint32_to_dec_example =
    dec_to_uint32-uint32_to_dec 4_294_967_295 dec_buf_init (omega arith) refl

-- 3 * 2 ^ 32 + 17 ticks at 25 MHz.
div64by32-div_example :
    let d = div64by32 3 17 25_000_000 in
    (d.q_lo ≡ (3 * 2 ^ 32 + 17) / 25_000_000 % 2 ^ 32)
    × (d.q_hi ≡ (3 * 2 ^ 32 + 17) / 25_000_000 / 2 ^ 32)
    × (d.remainder ≡ (3 * 2 ^ 32 + 17) % 25_000_000)
div64by32-div_example =
    div64by32-div 3 17 25_000_000 (omega arith) (omega arith) (omega arith) (omega arith)

parse_args-words_example :
    let r = parse_args (codes "  poke 0x10   7 ") in
    map (arg_text r.buf) r.argv ≡ codes "poke" ∷ codes "0x10" ∷ codes "7" ∷ []
unfolding words_from
parse_args-words_example = parse_args-words (codes "  poke 0x10   7 ")

find_command_iff_example :
    (find_command cmd_table (codes "gpio") ≡ some gpio) ↔ (codes "gpio" ≡ command_name gpio)
find_command_iff_example = find_command_iff (codes "gpio") gpio

parse_args-Bounded_example :
    Bounded 5 (codes "  poke 0x10   7 \0") (parse_args (codes "  poke 0x10   7 \0"))
parse_args-Bounded_example = parse_args-Bounded (codes "  poke 0x10   7 \0") (omega arith)

-- The default that vsync_hw.h states.
baud_default : uart_baud_div_calc 25_000_000 115_200 ≡ 0xD9
unfolding uart_baud_div_calc
baud_default = refl
