-- ===== src/Readline/Edit.antt =====
-- What a line editor does to a line, with no buffer. The line is kept as a stack, its last
-- character on top.
use vsync.Prelude.{
  Bool, List, [], codes, if◌then◌else◌, leb, length, ltb, map, not, ℕ, ◌&&◌, ◌++◌, ◌==◌, ◌||◌, ◌∷◌,
}
use vsync.Machine.{Event, got, put}

abbrev pub is_enter : ℕ → Bool
is_enter c = c == b'\r' || c == b'\n'

abbrev pub is_cancel : ℕ → Bool
is_cancel c = c == 0x03

abbrev pub is_erase : ℕ → Bool
is_erase c = c == 0x08 || c == 0x7F

abbrev pub is_printable : ℕ → Bool
is_printable c = leb 0x20 c && leb c 0x7E

-- A character that does not end the input.
abbrev pub is_edit : ℕ → Bool
is_edit c = not (is_enter c) && not (is_cancel c)

abbrev pub pop : List ℕ → List ℕ
pop [] = []
pop (c ∷ st) = st

-- Erase takes the last character away, a printable character is added if the line has room for
-- it, and anything else is ignored.
unfoldable pub key_line : ℕ → List ℕ → ℕ → List ℕ
key_line cap st c =
    if is_erase c then pop st else if is_printable c && ltb (length st) cap then c ∷ st else st

-- What is shown: a character that is added, and "BS space BS" for one that is taken away.
unfoldable pub key_echo : ℕ → List ℕ → ℕ → List ℕ
key_echo cap st c =
    if is_erase c
    then (if ltb 0 (length st) then codes "\u{8} \u{8}" else [])
    else if is_printable c && ltb (length st) cap
    then c ∷ []
    else []

unfoldable pub edit_line : ℕ → List ℕ → List ℕ → List ℕ
edit_line cap st [] = st
edit_line cap st (c ∷ keys) = edit_line cap (key_line cap st c) keys

-- The keys and their echoes, in order.
unfoldable pub edit_events : ℕ → List ℕ → List ℕ → List Event
edit_events cap st [] = []
edit_events cap st (c ∷ keys) =
    (got c ∷ map put (key_echo cap st c)) ++ edit_events cap (key_line cap st c) keys

-- The text of the line, first character first.
abbrev pub text_of : List ℕ → List ℕ
text_of [] = []
text_of (c ∷ st) = text_of st ++ (c ∷ [])
