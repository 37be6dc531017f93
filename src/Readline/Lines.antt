-- ===== src/Readline/Lines.antt =====
-- shell_readline on a whole line of input.
use vsync.Prelude.{
  List, [], all, all-append, ap, append-nil, arith, codes, cstr, cstr-append, cstr-set_zero,
  drop_all, fun_ext, length, length-set, map, none, not, refl, replicate, set, some, suc, true, ℕ,
  ◌++◌, ◌-◌, ◌<◌, ◌==◌, ◌∙◌, ◌∷◌, ◌≡◌,
}
use vsync.Machine.{Io, IoLaws, Does, got, put}
use vsync.Cstring.{shell_memset}
use vsync.Cstring.Memory.{shell_memset_fills}
use vsync.Readline.{readline_loop, shell_readline}
use vsync.Readline.Edit.{
  is_enter, is_cancel, is_edit, is_printable, key_line, edit_line, edit_events, text_of,
}
use vsync.Readline.Buffer.{image, free, length-image}
use vsync.Readline.Session.{rounds, Ends-enter, Ends-cancel, edit_line-fits}

key_line-printable :
    (cap : ℕ) (st : List ℕ) (c : ℕ)
    → all is_printable st ≡ true
    → all is_printable (key_line cap st c) ≡ true
unfolding key_line
key_line-printable cap [] c h = ground arith
key_line-printable cap (d ∷ st) c h = ground arith

edit_line-printable :
    (cap : ℕ) (st keys : List ℕ)
    → all is_printable st ≡ true
    → all is_printable (edit_line cap st keys) ≡ true
unfolding edit_line
edit_line-printable cap st [] h = h
edit_line-printable cap st (c ∷ keys) h =
    edit_line-printable cap (key_line cap st c) keys (key_line-printable cap st c h)

all-text_of :
    (st : List ℕ) → all is_printable st ≡ true → all (λ c. not (c == 0)) (text_of st) ≡ true
all-text_of [] h = refl
all-text_of (c ∷ st) h =
    ground (arith, all-text_of st, all-append (λ (d : ℕ). not (d == 0)) (text_of st) (c ∷ []))

-- The buffer reads as the text of the line.
cstr-image :
    (size : ℕ) (st : List ℕ)
    → length st < size
    → all is_printable st ≡ true
    → cstr (image size st) ≡ text_of st
unfolding image
cstr-image size st room h =
    rw (free size (length st) room)
      (cstr-append (text_of st) (replicate (size - suc (length st)) 0) (all-text_of st h))

image_empty : (size : ℕ) → image size [] ≡ replicate size 0
unfolding image
image_empty size = let e : size - 0 ≡ size = omega arith in ap (λ (n : ℕ). replicate {A = ℕ} n 0) e

module _ {S : Type 0} (io : Io S) (laws : IoLaws io) where
  -- The loop starts on a buffer of zeros.
  shell_readline-loop :
      (fuel : ℕ) (buf : List ℕ) (size : ℕ)
      → length buf ≡ size
      → shell_readline io fuel buf size ≡ readline_loop io fuel size (image size []) 0
  unfolding shell_readline
  shell_readline-loop fuel buf size len =
      let zeroed : shell_memset buf 0 size ≡ some (image size []) =
        shell_memset_fills buf 0 size (omega (arith, len))
        ∙ rw (drop_all buf size len, append-nil, image_empty) in
      fun_ext λ s. rw (zeroed, shell_readline)

  module _ (fuel : ℕ) (buf : List ℕ) (size : ℕ) (s : S) (keys : List ℕ) (c : ℕ)
      (rest : List ℕ) where
    -- A line that Enter ends: `shell_readline` returns the length of the edited line, the buffer
    -- keeps its size and reads as its text, every key is echoed as the editor says, and the input
    -- behind Enter is left. One unit of fuel for each key and one for Enter is enough.
    pub shell_readline_enters :
        0 < size
        → length buf ≡ size
        → all is_edit keys ≡ true
        → is_enter c ≡ true
        → length keys < fuel
        → laws.input s ≡ keys ++ c ∷ rest
        → let line = edit_line (size - 1) [] keys in
          (buf' : List ℕ) × Does laws.input laws.log
            (shell_readline io fuel buf size)
            s
            (record { len = some (length line); buf = buf' })
            (edit_events (size - 1) [] keys ++ got c ∷ map put (codes "\r\n"))
            rest
          × (cstr buf' ≡ text_of line)
          × (length line < size)
          × (length buf' ≡ size)
    shell_readline_enters room len ed e enough inp =
        let line = edit_line (size - 1) [] keys in
        let fits = edit_line-fits size [] keys room in
        (
          image size line,
          rw (shell_readline-loop fuel buf size len) (
              rounds io laws size fuel s [] keys (c ∷ rest) _ (got c ∷ map put (codes "\r\n")) rest
                ed room enough inp (λ f s' i'. Ends-enter io laws size f s' line c rest e fits i')),
          cstr-image size line fits (edit_line-printable (size - 1) [] keys refl),
          fits,
          length-image size line fits,
        )

    -- A line that Ctrl-C ends: `shell_readline` returns -1 and an empty text, in a buffer of the same
    -- size, and shows "^C" behind the echo of the keys; the input behind Ctrl-C is left.
    pub shell_readline_cancels :
        0 < size
        → length buf ≡ size
        → all is_edit keys ≡ true
        → is_cancel c ≡ true
        → length keys < fuel
        → laws.input s ≡ keys ++ c ∷ rest
        → (buf' : List ℕ) × Does laws.input laws.log
            (shell_readline io fuel buf size)
            s
            (record { len = none; buf = buf' })
            (edit_events (size - 1) [] keys ++ got c ∷ map put (codes "^C\r\n"))
            rest
          × (cstr buf' ≡ [])
          × (length buf' ≡ size)
    shell_readline_cancels room len ed e enough inp =
        let line = edit_line (size - 1) [] keys in
        let fits = edit_line-fits size [] keys room in
        (
          set (image size line) 0 0,
          rw (shell_readline-loop fuel buf size len) (
              rounds io laws size fuel s [] keys (c ∷ rest) _ (got c ∷ map put (codes "^C\r\n"))
                rest ed room enough inp
                (λ f s' i'. Ends-cancel io laws size f s' line c rest e i')),
          cstr-set_zero (image size line),
          length-set (image size line) 0 0 ∙ length-image size line fits,
        )
