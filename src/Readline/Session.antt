-- ===== src/Readline/Session.antt =====
-- shell_readline against the line editor of `Edit`: the rounds of its loop.
use vsync.Prelude.{
  List, [], all, append-nil, append_assoc, arith, codes, length, map, none, refl, set, some, suc,
  sym, true, zero, ℕ, ◌++◌, ◌+◌, ◌-◌, ◌<◌, ◌∙◌, ◌∷◌, ◌≡◌,
}
use vsync.Machine.{M, Io, IoLaws, Does, Event, got, put, pure, ◌>>◌}
use vsync.Machine.Effects.{Does-bind, Does-then}
use vsync.Console.{shell_puts, shell_newline}
use vsync.Console.Output.{shell_puts-cstr, shell_newline-crlf}
use vsync.Readline.{Line, choose, enter_line, cancel_line, readline_loop}
use vsync.Readline.Edit.{is_edit, is_enter, is_cancel, key_line, key_echo, edit_line, edit_events}
use vsync.Readline.Buffer.{image, image-push, image-end}
use vsync.Readline.Keys.{Kind, erases, ignored, typed, kind, erased}

module _ {S : Type 0} (io : Io S) (laws : IoLaws io) (size : ℕ) where
  -- From a buffer that stands for `st` on, the loop ends with `line`.
  abbrev pub Ends : ℕ → S → List ℕ → Line → List Event → List ℕ → Type 0
  Ends n s st line es rest =
      Does laws.input laws.log (readline_loop io n size (image size st) (length st)) s line es rest

  -- What follows the read of a key that edits.
  after_key :
      (fuel : ℕ) (s : S) (c : ℕ) (st : List ℕ) (line : Line) (es : List Event) (rest : List ℕ)
      → Kind {X = M S Line} size c st
          (enter_line io (image size st) (length st))
          (cancel_line io (image size st))
          (shell_puts io (codes "\u{8} \u{8}")
            >> readline_loop io fuel size (set (image size st) (length st - 1) 0) (length st - 1))
          (io.putchar c
            >> readline_loop io fuel size (set (image size st) (length st) c) (length st + 1))
          (readline_loop io fuel size (image size st) (length st))
      → length st < size
      → ((s' : S)
          → laws.input s' ≡ laws.input s
          → Ends fuel s' (key_line (size - 1) st c) line es rest)
      → Does laws.input laws.log
          (choose size
            (length st)
            c
            (enter_line io (image size st) (length st))
            (cancel_line io (image size st))
            (shell_puts io (codes "\u{8} \u{8}")
              >> readline_loop io fuel size (set (image size st) (length st - 1) 0) (length st - 1))
            (io.putchar c
              >> readline_loop io fuel size (set (image size st) (length st) c) (length st + 1))
            (readline_loop io fuel size (image size st) (length st)))
          s
          line
          (map put (key_echo (size - 1) st c) ++ es)
          rest
  after_key fuel s c st line es rest (ignored ch l ec) room k = rw (ch, ec) (rw l at (k s refl))
  after_key fuel s c st line es rest (erases ch l ec p) room k =
      let (e, n) = erased size st p room in
      rw (ch, ec, e, n)
        (Does-then laws.input laws.log (shell_puts io (codes "\u{8} \u{8}")) _ s line
          (map put (codes "\u{8} \u{8}")) es (laws.input s) rest
          (shell_puts-cstr io laws (codes "\u{8} \u{8}") s) (λ s' i'. rw l at (k s' i')))
  after_key fuel s c st line es rest (typed ch l ec p) room k =
      let n : length st + 1 ≡ length (c ∷ st) = omega arith in
      rw (ch, ec, image-push size st c room, n)
        (Does-then laws.input laws.log (io.putchar c) _ s line (put c ∷ []) es (laws.input s) rest
          (laws.putchar_law s c) (λ s' i'. rw l at (k s' i')))

  -- One round on a key that edits.
  pub round :
      (fuel : ℕ) (s : S) (c : ℕ) (st keys : List ℕ) (line : Line) (es : List Event) (rest : List ℕ)
      → is_edit c ≡ true
      → length st < size
      → laws.input s ≡ c ∷ keys
      → ((s' : S) → laws.input s' ≡ keys → Ends fuel s' (key_line (size - 1) st c) line es rest)
      → Ends (suc fuel) s st line ((got c ∷ map put (key_echo (size - 1) st c)) ++ es) rest
  unfolding readline_loop
  round fuel s c st keys line es rest ed room inp k =
      Does-bind laws.input laws.log io.getchar_blocking _ s c line (got c ∷ [])
        (map put (key_echo (size - 1) st c) ++ es) keys rest (laws.getchar_law s c keys inp)
        λ s' i'.
          after_key fuel s' c st line es rest (kind size c st _ _ _ _ _ ed) room
            (λ s2 i2. k s2 (i2 ∙ i'))

choose_enter :
    {X : Type 0} (size pos c : ℕ) (enter cancel erase store continue : X)
    → is_enter c ≡ true
    → choose size pos c enter cancel erase store continue ≡ enter
unfolding choose
choose_enter size pos c enter cancel erase store continue e = ground arith

choose_cancel :
    {X : Type 0} (size pos c : ℕ) (enter cancel erase store continue : X)
    → is_cancel c ≡ true
    → choose size pos c enter cancel erase store continue ≡ cancel
unfolding choose
choose_cancel size pos c enter cancel erase store continue e = ground arith

key_line-fits :
    (size : ℕ) (st : List ℕ) (c : ℕ) → length st < size → length (key_line (size - 1) st c) < size
unfolding key_line
key_line-fits size [] c h = ground arith
key_line-fits size (d ∷ st) c h = ground arith

pub edit_line-fits :
    (size : ℕ) (st keys : List ℕ) → length st < size → length (edit_line (size - 1) st keys) < size
unfolding edit_line
edit_line-fits size st [] h = h
edit_line-fits size st (c ∷ keys) h =
    edit_line-fits size (key_line (size - 1) st c) keys (key_line-fits size st c h)

module _ {S : Type 0} (io : Io S) (laws : IoLaws io) (size : ℕ) where
  -- The keys of a line, one round each, before the key that ends it.
  pub rounds :
      (fuel : ℕ) (s : S) (st keys tail : List ℕ) (line : Line) (es : List Event) (rest : List ℕ)
      → all is_edit keys ≡ true
      → length st < size
      → length keys < fuel
      → laws.input s ≡ keys ++ tail
      → ((f : ℕ) (s' : S)
          → laws.input s' ≡ tail
          → Ends io laws size (suc f) s' (edit_line (size - 1) st keys) line es rest)
      → Ends io laws size fuel s st line (edit_events (size - 1) st keys ++ es) rest
  unfolding edit_line edit_events
  rounds zero s st keys tail line es rest ed room enough inp last = absurd (omega arith)
  rounds (suc fuel) s st [] tail line es rest ed room enough inp last = last fuel s inp
  rounds (suc fuel) s st (c ∷ keys) tail line es rest ed room enough inp last =
      let st' = key_line (size - 1) st c in
      rw append_assoc (
        round io laws size fuel s c st (keys ++ tail) line (edit_events (size - 1) st' keys ++ es)
          rest (ground arith) room inp
          λ s' i'.
            rounds fuel s' st' keys tail line es rest (ground arith) (key_line-fits size st c room)
              (omega arith) i' last)

  enter_line-Does :
      (s : S) (buf : List ℕ) (pos : ℕ)
      → Does laws.input laws.log
          (enter_line io buf pos)
          s
          (record { len = some pos; buf = set buf pos 0 })
          (map put (codes "\r\n"))
          (laws.input s)
  unfolding enter_line
  enter_line-Does s buf pos =
      Does-then laws.input laws.log (shell_newline io) (pure _) s _ (map put (codes "\r\n")) []
        (laws.input s) (laws.input s) (shell_newline-crlf io laws s)
        λ s' i'. (s', refl, i', sym (append-nil _))

  cancel_line-Does :
      (s : S) (buf : List ℕ)
      → Does laws.input laws.log
          (cancel_line io buf)
          s
          (record { len = none; buf = set buf 0 0 })
          (map put (codes "^C\r\n"))
          (laws.input s)
  unfolding cancel_line
  cancel_line-Does s buf =
      Does-then laws.input laws.log (shell_puts io (codes "^C")) _ s _ (map put (codes "^C"))
        (map put (codes "\r\n")) (laws.input s) (laws.input s)
        (shell_puts-cstr io laws (codes "^C") s)
        λ s1 i1.
          Does-then laws.input laws.log (shell_newline io) (pure _) s1 _ (map put (codes "\r\n")) []
            (laws.input s1) (laws.input s) (shell_newline-crlf io laws s1)
            λ s' i'. (s', refl, i' ∙ i1, sym (append-nil _))

  pub Ends-enter :
      (f : ℕ) (s : S) (st : List ℕ) (c : ℕ) (rest : List ℕ)
      → is_enter c ≡ true
      → length st < size
      → laws.input s ≡ c ∷ rest
      → Ends io laws size
          (suc f)
          s
          st
          (record { len = some (length st); buf = image size st })
          (got c ∷ map put (codes "\r\n"))
          rest
  unfolding readline_loop
  Ends-enter f s st c rest e room inp =
      Does-bind laws.input laws.log io.getchar_blocking _ s c _ (got c ∷ [])
        (map put (codes "\r\n")) rest rest (laws.getchar_law s c rest inp)
        λ s' i'.
          rw (choose_enter size (length st) c _ _ _ _ _ e, ← i')
            (rw (image-end size st room) at (enter_line-Does s' (image size st) (length st)))

  pub Ends-cancel :
      (f : ℕ) (s : S) (st : List ℕ) (c : ℕ) (rest : List ℕ)
      → is_cancel c ≡ true
      → laws.input s ≡ c ∷ rest
      → Ends io laws size
          (suc f)
          s
          st
          (record { len = none; buf = set (image size st) 0 0 })
          (got c ∷ map put (codes "^C\r\n"))
          rest
  unfolding readline_loop
  Ends-cancel f s st c rest e inp =
      Does-bind laws.input laws.log io.getchar_blocking _ s c _ (got c ∷ [])
        (map put (codes "^C\r\n")) rest rest (laws.getchar_law s c rest inp)
        λ s' i'.
          rw (choose_cancel size (length st) c _ _ _ _ _ e, ← i')
            (cancel_line-Does s' (image size st))
