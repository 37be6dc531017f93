-- ===== src/Commands/Accesses.antt =====
-- The registers that a command reads and writes.
use vsync.Prelude.{
  List, [], ap, append_assoc, codes, cstr, map, refl, ℕ, ◌++◌, ◌<◌, ◌^◌, ◌∙◌, ◌∷◌, ◌≡◌,
}
use vsync.Machine.{
  M, Io, IoLaws, Event, got, put, loaded, stored, masked, jumped, Does, ◌>>=◌, ◌>>◌,
}
use vsync.Machine.Effects.{Prints}
use vsync.Console.{shell_puts, shell_newline, shell_put_hex, shell_put_dec}
use vsync.Console.Output.{
  shell_puts-cstr, shell_newline-crlf, shell_put_hex-digits, shell_put_dec-text,
}
use vsync.Hex.Print.{hex_digits}
use vsync.Decimal.Print.{dec_text}

-- What an event does beside printing.
pub data Access : Type 0 where
  read : ℕ → Access
  write : ℕ → ℕ → Access
  takes_key masks leaves : Access

abbrev pub accesses : List Event → List Access
accesses [] = []
accesses (put c ∷ es) = accesses es
accesses (loaded a v ∷ es) = read a ∷ accesses es
accesses (stored a v ∷ es) = write a v ∷ accesses es
accesses (got c ∷ es) = takes_key ∷ accesses es
accesses (masked ∷ es) = masks ∷ accesses es
accesses (jumped a ∷ es) = leaves ∷ accesses es

accesses-append : (es fs : List Event) → accesses (es ++ fs) ≡ accesses es ++ accesses fs
accesses-append [] fs = refl
accesses-append (put c ∷ es) fs = accesses-append es fs
accesses-append (loaded a v ∷ es) fs = ap (λ l. read a ∷ l) (accesses-append es fs)
accesses-append (stored a v ∷ es) fs = ap (λ l. write a v ∷ l) (accesses-append es fs)
accesses-append (got c ∷ es) fs = ap (λ l. takes_key ∷ l) (accesses-append es fs)
accesses-append (masked ∷ es) fs = ap (λ l. masks ∷ l) (accesses-append es fs)
accesses-append (jumped a ∷ es) fs = ap (λ l. leaves ∷ l) (accesses-append es fs)

accesses-put : (out : List ℕ) → accesses (map put out) ≡ []
accesses-put [] = refl
accesses-put (c ∷ out) = accesses-put out

module _ {S : Type 0} (io : Io S) (laws : IoLaws io) where
  -- In every state the code returns, and but for printing it does exactly the accesses, in order.
  pub record Accesses (m : M S (Unit {0})) (todo : List Access) : Type 0 where
    pub run :
        (s : S)
        → (es : List Event) × (rest : List ℕ) × Does laws.input laws.log m s tt es rest
          × (accesses es ≡ todo)

  Prints-Accesses :
      (m : M S (Unit {0})) (out : List ℕ) → Prints laws.input laws.log m out → Accesses m []
  Prints-Accesses m out p = record { run = λ s. (map put out, laws.input s, p s, accesses-put out) }

  pub say-Accesses : (text : List ℕ) → Accesses (shell_puts io text) []
  say-Accesses text =
      Prints-Accesses (shell_puts io text) (cstr text) (shell_puts-cstr io laws text)

  pub hex-Accesses : (v : ℕ) → Accesses (shell_put_hex io v) []
  hex-Accesses v =
      Prints-Accesses (shell_put_hex io v) (codes "0x" ++ hex_digits 8 v)
        (shell_put_hex-digits io laws v)

  pub newline-Accesses : Accesses (shell_newline io) []
  newline-Accesses = Prints-Accesses (shell_newline io) (codes "\r\n") (shell_newline-crlf io laws)

  pub dec-Accesses : (v : ℕ) → v < 2 ^ 32 → Accesses (shell_put_dec io v) []
  dec-Accesses v h =
      Prints-Accesses (shell_put_dec io v) (dec_text v) (shell_put_dec-text io laws v h)

  -- Code that only prints, and more.
  pub quiet-Accesses :
      (m k : M S (Unit {0})) (bs : List Access)
      → Accesses m []
      → Accesses k bs
      → Accesses (m >> k) bs
  quiet-Accesses m k bs a b = record {
    run = λ s.
        let (es, rest, (s1, e1, i1, l1), q1) = a.run s in
        let (fs, rest', (s2, e2, i2, l2), q2) = b.run s1 in
        (
          es ++ fs,
          rest',
          (s2, rw (e1, ◌>>◌) e2, i2, l2 ∙ rw (l1, append_assoc) refl),
          accesses-append es fs ∙ rw (q1, q2) refl,
        );
  }

  pub load-Accesses :
      (a : ℕ) (k : ℕ → M S (Unit {0})) (bs : List Access)
      → ((v : ℕ) → v < 2 ^ 32 → Accesses (k v) bs)
      → Accesses (io.load a >>= k) (read a ∷ bs)
  load-Accesses a k bs h = record {
    run = λ s.
        let ((v, rest), below, (s1, e1, i1, l1)) = laws.load_law s a in
        let (fs, rest', (s2, e2, i2, l2), q2) = (h v below).run s1 in
        (
          loaded a v ∷ fs,
          rest',
          (s2, rw (e1, ◌>>=◌) e2, i2, l2 ∙ rw (l1, append_assoc) refl),
          ap (λ l. read a ∷ l) q2,
        );
  }

  pub store-Accesses :
      (a v : ℕ) (k : M S (Unit {0})) (bs : List Access)
      → Accesses k bs
      → Accesses (io.store a v >> k) (write a v ∷ bs)
  store-Accesses a v k bs b = record {
    run = λ s.
        let (rest, (s1, e1, i1, l1)) = laws.store_law s a v in
        let (fs, rest', (s2, e2, i2, l2), q2) = b.run s1 in
        (
          stored a v ∷ fs,
          rest',
          (s2, rw (e1, ◌>>◌) e2, i2, l2 ∙ rw (l1, append_assoc) refl),
          ap (λ l. write a v ∷ l) q2,
        );
  }

  -- Code that reads one register, and more.
  pub line-Accesses :
      (m k : M S (Unit {0})) (a : ℕ) (bs : List Access)
      → Accesses m (read a ∷ [])
      → Accesses k bs
      → Accesses (m >> k) (read a ∷ bs)
  line-Accesses m k a bs b c = record {
    run = λ s.
        let (es, rest, (s1, e1, i1, l1), q1) = b.run s in
        let (fs, rest', (s2, e2, i2, l2), q2) = c.run s1 in
        (
          es ++ fs,
          rest',
          (s2, rw (e1, ◌>>◌) e2, i2, l2 ∙ rw (l1, append_assoc) refl),
          accesses-append es fs ∙ rw (q1, q2) refl,
        );
  }
