-- ===== src/Commands/Script.antt =====
-- What a session of cmd_load means: the words that its lines spell, where they go, and what is shown.
use vsync.Prelude.{
  Bool, List, Option, [], all, codes, false, get_or, if◌then◌else◌, length, none, some, true, ℕ,
  ◌%◌, ◌*◌, ◌++◌, ◌+◌, ◌-◌, ◌<◌, ◌==◌, ◌^◌, ◌||◌, ◌∷◌, ◌≡◌,
}
use vsync.Hex.Parse.{hex_meaning}
use vsync.Readline.Edit.{is_edit, is_enter, is_cancel, edit_line, edit_events, text_of}
use vsync.Machine.Memory.{shown}
use vsync.Decimal.Print.{dec_text}
use vsync.Commands.Poke.{hex_text}
use vsync.Commands.Load.{cmd_buf_size}

-- A line that the user types, with the character that ends it, and the text that it leaves.
pub record Typed : Type 0 where
  pub keys : List ℕ
  pub enter : ℕ

abbrev pub typed_line : Typed → List ℕ
typed_line t = edit_line (cmd_buf_size - 1) [] t.keys

abbrev pub typed_text : Typed → List ℕ
typed_text t = text_of (typed_line t)

-- The characters of some lines, with `rest` behind them.
abbrev pub chars : List Typed → List ℕ → List ℕ
chars [] rest = rest
chars (t ∷ ts) rest = t.keys ++ t.enter ∷ chars ts rest

-- Lines that the line editor reads, with `fuel`.
abbrev pub IsTyped : ℕ → Typed → Type 0
IsTyped fuel t = (all is_edit t.keys ≡ true) × (is_enter t.enter ≡ true) × (length t.keys < fuel)

-- Keys that Ctrl-C ends.
abbrev pub IsCancelled : ℕ → Typed → Type 0
IsCancelled fuel t =
    (all is_edit t.keys ≡ true) × (is_cancel t.enter ≡ true) × (length t.keys < fuel)

abbrev pub is_last : List ℕ → Bool
is_last text = length text == 0 || get_or text 0 0 == b'.'

abbrev pub is_comment : List ℕ → Bool
is_comment text = get_or text 0 0 == b'#' || get_or text 0 0 == b'@'

-- A line before the last one.
abbrev pub IsBody : ℕ → Typed → Type 0
IsBody fuel t = IsTyped fuel t × (is_last (typed_text t) ≡ false)

-- The words that the lines spell; comments and lines that are no hexadecimal word are left out.
abbrev pub word_of : List ℕ → Option ℕ
word_of text = if is_comment text then none else hex_meaning text

unfoldable pub words_of : List (List ℕ) → List ℕ
words_of [] = []
words_of (text ∷ texts) = elim (word_of text) [
  | none ↦ words_of texts
  | some v ↦ v ∷ words_of texts
]

pub words_of-skip :
    (text : List ℕ) (texts : List (List ℕ))
    → word_of text ≡ none
    → words_of (text ∷ texts) ≡ words_of texts
unfolding words_of
words_of-skip text texts e = rw (e, words_of)

pub words_of-word :
    (text : List ℕ) (texts : List (List ℕ)) (v : ℕ)
    → word_of text ≡ some v
    → words_of (text ∷ texts) ≡ v ∷ words_of texts
unfolding words_of
words_of-word text texts v e = rw (e, words_of)

-- Words at consecutive addresses, on 32 bits.
abbrev pub at_words : ℕ → List ℕ → List (ℕ × ℕ)
at_words addr [] = []
at_words addr (v ∷ vs) = (addr, v) ∷ at_words ((addr + 4) % 2 ^ 32) vs

-- What the line editor shows of the keys.
abbrev pub echo : List ℕ → List ℕ
echo keys = shown (edit_events (cmd_buf_size - 1) [] keys)

abbrev pub line_echo : Typed → List ℕ
line_echo t = echo t.keys ++ codes "\r\n"

-- The answer to a line that is no word.
abbrev pub bad_text : List ℕ → List ℕ
bad_text text = codes "Error: invalid hex '" ++ (text ++ codes "'\r\n")

-- The number of words and of bytes, the address of the first word and that of the last.
abbrev pub report_text : ℕ → ℕ → ℕ → List ℕ
report_text addr cur count =
    codes "Loaded "
    ++ (dec_text count
        ++ (codes " words ("
            ++ (dec_text (count * 4 % 2 ^ 32)
                ++ (codes " bytes) to "
                    ++ (hex_text addr
                        ++ (codes " - "
                            ++ (hex_text ((cur + 2 ^ 32 - 4) % 2 ^ 32) ++ codes "\r\n")))))))

-- What is shown behind the echo of a line, where `next` is what is shown from the next line on.
unfoldable pub reply_text : (ℕ → ℕ → List ℕ) → ℕ → ℕ → List ℕ → List ℕ
reply_text next cur count text =
    if is_comment text then next cur count else elim (hex_meaning text) [
      | none ↦ bad_text text ++ next cur count
      | some v ↦ next ((cur + 4) % 2 ^ 32) ((count + 1) % 2 ^ 32)
    ]

-- What is shown from the first line on; `finish` is what is shown from the last line on.
unfoldable pub body_text : (ℕ → ℕ → List ℕ) → ℕ → ℕ → List Typed → List ℕ
body_text finish cur count [] = finish cur count
body_text finish cur count (t ∷ ts) =
    line_echo t ++ reply_text (λ a n. body_text finish a n ts) cur count (typed_text t)

-- The last line of a session, and Ctrl-C in its place.
abbrev pub end_text : ℕ → Typed → ℕ → ℕ → List ℕ
end_text addr t cur count = line_echo t ++ report_text addr cur count

abbrev pub abort_text : List ℕ → List ℕ
abort_text keys = echo keys ++ (codes "^C\r\n" ++ codes "Aborted.\r\n")
