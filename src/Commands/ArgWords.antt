-- ===== src/Commands/ArgWords.antt =====
-- The arguments of a command, by their texts.
use vsync.Prelude.{
  List, [], ap, arith, codes, cstr, get_or, length, length-map, map, refl, suc, sym, take, true,
  zero, ℕ, ◌+◌, ◌↔◌, ◌∙◌, ◌∷◌, ◌≡◌,
}
use Prim.Native.String.{String}
use vsync.Cstring.Compare.{shell_strcmp_zero_iff}
use vsync.Args.{max_args}
use vsync.Hex.{hex_to_uint32}
use vsync.Hex.Parse.{hex_meaning, hex_to_uint32_exact}
use vsync.Commands.{argc, argv}
use vsync.Commands.Registers.{is_word_arg}

pub is_word_arg_iff :
    (s : List ℕ) (word : String) → (is_word_arg s word ≡ true) ↔ (cstr s ≡ cstr (codes word))
unfolding is_word_arg
is_word_arg_iff s word = (
  λ h. (shell_strcmp_zero_iff s (codes word)).0 (ground arith),
  λ h. rw ((shell_strcmp_zero_iff s (codes word)).1 h, is_word_arg),
)

-- Arguments with the texts of some words, of which parse_args keeps MAX_ARGS + 1.
abbrev pub Given : List (List ℕ) → List (List ℕ) → Type 0
Given args ws = map cstr args ≡ take (max_args + 1) ws

argv-text : (args : List (List ℕ)) (i : ℕ) → cstr (argv args i) ≡ get_or (map cstr args) i []
argv-text [] i = refl
argv-text (w ∷ args) zero = refl
argv-text (w ∷ args) (suc i) = argv-text args i

pub argv-Given :
    (args ws : List (List ℕ)) (i : ℕ)
    → Given args ws
    → cstr (argv args i) ≡ get_or (take (max_args + 1) ws) i []
argv-Given args ws i texts = argv-text args i ∙ ap (λ l. get_or l i []) texts

pub argv-hex :
    (args ws : List (List ℕ)) (i : ℕ)
    → Given args ws
    → hex_to_uint32 (argv args i) ≡ hex_meaning (get_or (take (max_args + 1) ws) i [])
argv-hex args ws i texts =
    hex_to_uint32_exact (argv args i) ∙ ap hex_meaning (argv-Given args ws i texts)

pub argc-Given :
    (args ws : List (List ℕ)) → Given args ws → argc args ≡ length (take (max_args + 1) ws)
argc-Given args ws texts = sym (length-map args cstr) ∙ ap length texts
