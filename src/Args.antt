-- ===== src/Args.antt =====
-- sw/examples/shell.c: parse_args, with argc and argv. A pointer into the command line is its
-- offset in `buf`; `argv` is the list of the offsets stored so far, and `argc` its length.
pub mod Words
pub mod Tokens
pub mod Bounds
-- MAX_ARGS

use vsync.Prelude.{
  List, [], cstr, drop, get_or, if◌then◌else◌, set, suc, zero, ℕ, ◌++◌, ◌+◌, ◌==◌, ◌||◌, ◌∷◌,
}

abbrev pub max_args : ℕ
max_args = 4

-- `while (*p == ' ') p++;` from the memory at `p`: how far `p` goes.
unfoldable pub skip_spaces : List ℕ → ℕ
skip_spaces [] = 0
skip_spaces (c ∷ s) = let rest = suc (skip_spaces s) in if c == b' ' then rest else 0

-- `while (*p && *p != ' ') p++;`
unfoldable pub find_end : List ℕ → ℕ
find_end [] = 0
find_end (c ∷ s) = let rest = suc (find_end s) in if c == 0 || c == b' ' then 0 else rest

-- The line as parse_args leaves it.
pub record Parsed : Type 0 where
  pub buf : List ℕ
  pub argv : List ℕ

-- The loop `while (*p && argc <= MAX_ARGS)`; `slots` is MAX_ARGS + 1 - argc.
unfoldable pub parse_loop : ℕ → List ℕ → ℕ → List ℕ → Parsed
parse_loop zero buf p argv = record { buf = buf; argv = argv }
parse_loop (suc slots) buf p argv =
    let stop : Parsed = record { buf = buf; argv = argv } in
    let start = p + skip_spaces (drop p buf) in
    let end = start + find_end (drop start buf) in
    let cut = parse_loop slots (set buf end 0) (end + 1) (argv ++ (start ∷ [])) in
    let last = parse_loop slots buf end (argv ++ (start ∷ [])) in
    if get_or buf p 0 == 0
    then stop
    else if get_or buf start 0 == 0
    then stop
    else if get_or buf end 0 == 0
    then last
    else cut

unfoldable pub parse_args : List ℕ → Parsed
parse_args buf = parse_loop (max_args + 1) buf 0 []

-- The text of argument `p`, as a handler sees it.
abbrev pub arg_text : List ℕ → ℕ → List ℕ
arg_text buf p = cstr (drop p buf)
