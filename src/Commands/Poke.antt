-- ===== src/Commands/Poke.antt =====
-- cmd_poke: what it writes and shows.
use vsync.Prelude.{
  Bool-cases, List, Option-cases, [], arith, codes, false, inl, inr, ltb, map, none, some, ℕ, ◌++◌,
  ◌<◌, ◌∷◌, ◌≡◌, ◌≤◌, ◌⊎◌,
}
use vsync.Machine.{Io, IoLaws, Does, Event, put, stored, loaded, ◌>>=◌, ◌>>◌}
use vsync.Machine.Effects.{Does-bind, Does-then_some, Does-print_some, Prints, Prints-then}
use vsync.Console.{shell_newline, shell_put_hex}
use vsync.Console.Output.{shell_puts-cstr, shell_newline-crlf, shell_put_hex-digits}
use vsync.Hex.{hex_to_uint32}
use vsync.Hex.Print.{hex_digits}
use vsync.Commands.{argc, argv, say, word_align}
use vsync.Commands.Memory.{poke_word, cmd_poke}

-- The text of shell_put_hex.
abbrev pub hex_text : ℕ → List ℕ
hex_text v = codes "0x" ++ hex_digits 8 v

-- The end of the confirmation, from the read on.
abbrev readback_events : ℕ → ℕ → List Event
readback_events a r = loaded a r ∷ map put (hex_text r ++ codes ")\r\n")

-- The write comes first, then the confirmation, which shows what is read back.
unfoldable pub poke_events : ℕ → ℕ → ℕ → List Event
poke_events a v r =
    stored a v
    ∷ (map put (hex_text a)
        ++ (map put (codes " <- ")
            ++ (map put (hex_text v) ++ (map put (codes " (readback: ") ++ readback_events a r))))

module _ {S : Type 0} (io : Io S) (laws : IoLaws io) where
  -- The read and the text behind it.
  readback :
      (a : ℕ) (s : S)
      → (r : ℕ × List ℕ) × Does laws.input laws.log
          (io.load a >>= λ r. shell_put_hex io r >> (say io ")" >> shell_newline io))
          s
          tt
          (readback_events a r.0)
          r.1
  readback a s =
      let i = laws.input in
      let l = laws.log in
      let (r, below, d) = laws.load_law s a in
      (
        r,
        Does-bind i l (io.load a) _ s r.0 tt (loaded a r.0 ∷ []) _ r.1 r.1 d λ s1 i1. rw (← i1) (
            Prints-then i l (shell_put_hex io r.0) _ (hex_text r.0) (codes ")\r\n")
              (shell_put_hex-digits io laws r.0)
              (Prints-then i l (say io ")") _ (codes ")") (codes "\r\n")
                (shell_puts-cstr io laws (codes ")")) (shell_newline-crlf io laws))
              s1),
      )

  poke_word-events :
      (a v : ℕ) (s : S)
      → (r : ℕ × List ℕ) × Does laws.input laws.log
          (poke_word io a v)
          s
          tt
          (poke_events a v r.0)
          r.1
  unfolding poke_word poke_events
  poke_word-events a v s =
      let i = laws.input in
      let l = laws.log in
      let left : ℕ × List ℕ → List ℕ = λ r. r.1 in
      let hex = shell_put_hex-digits io laws in
      let text = shell_puts-cstr io laws in
      let (rest, d) = laws.store_law s a v in
      Does-then_some i l _ left (io.store a v) _ s tt (stored a v ∷ []) rest d λ s1.
        Does-print_some i l _ left (shell_put_hex io a) _ s1 tt (hex_text a) (hex a) λ s2.
          Does-print_some i l _ left (say io " <- ") _ s2 tt (codes " <- ") (text (codes " <- "))
            λ s3. Does-print_some i l _ left (shell_put_hex io v) _ s3 tt (hex_text v) (hex v) λ s4.
              Does-print_some i l (λ r. readback_events a r.0) left (say io " (readback: ") _ s4 tt
                (codes " (readback: ") (text (codes " (readback: ")) λ s5. readback a s5

  -- With an address and a value that hex_to_uint32 reads, `cmd_poke` writes the value once, to the
  -- word-aligned address, before anything is printed; it then prints the address, the value and
  -- what it reads back from that address.
  pub cmd_poke_writes :
      (args : List (List ℕ)) (a v : ℕ) (s : S)
      → 3 ≤ argc args
      → hex_to_uint32 (argv args 1) ≡ some a
      → hex_to_uint32 (argv args 2) ≡ some v
      → (r : ℕ × List ℕ) × Does laws.input laws.log
          (cmd_poke io args)
          s
          tt
          (poke_events (word_align a) v r.0)
          r.1
  unfolding cmd_poke
  cmd_poke_writes args a v s enough ea ev =
      let has_args : ltb (argc args) 3 ≡ false = ground arith in
      rw (has_args, ea, ev, cmd_poke) (poke_word-events (word_align a) v s)

  -- With too few arguments, or one that hex_to_uint32 refuses, `cmd_poke` prints one message and
  -- touches no register.
  pub cmd_poke_refuses :
      (args : List (List ℕ))
      → ((argc args < 3) ⊎ (hex_to_uint32 (argv args 1) ≡ none))
        ⊎ (hex_to_uint32 (argv args 2) ≡ none)
      → (message : List ℕ) × Prints laws.input laws.log (cmd_poke io args) message
  unfolding cmd_poke
  cmd_poke_refuses args bad = elim (Bool-cases (ltb (argc args) 3)) [
    | inl few ↦
        (codes "Usage: poke <addr> <value>\r\n", rw (few, cmd_poke) (shell_puts-cstr io laws _))
    | inr enough ↦ elim (Option-cases (hex_to_uint32 (argv args 1))) [
      | inl no_addr ↦ (
        codes "Error: invalid address\r\n",
        rw (enough, no_addr, cmd_poke) (shell_puts-cstr io laws _),
      )
      | inr (a, addr) ↦ elim (Option-cases (hex_to_uint32 (argv args 2))) [
        | inl no_val ↦ (
          codes "Error: invalid value\r\n",
          rw (enough, addr, no_val, cmd_poke) (shell_puts-cstr io laws _),
        )
        | inr (v, val) ↦ absurd (ground arith)
      ]
    ]
  ]
