-- ===== src/Commands/Returns.antt =====
-- Commands that end whatever their arguments are and whatever the registers answer.
use vsync.Prelude.{
  Bool, Bool-cases, List, Option-cases, arith, codes, cstr, false, if◌then◌else◌, inl, inr, leb,
  ltb, map, none, refl, true, ℕ, ◌&&◌, ◌<◌, ◌≡◌, ◌⊎◌,
}
use vsync.Machine.{M, Io, IoLaws, Event, put, Does}
use vsync.Machine.Effects.{Prints}
use vsync.Console.{shell_puts}
use vsync.Console.Output.{shell_puts-cstr}
use vsync.Hex.{hex_to_uint32}
use vsync.Commands.{argc, argv, word_align}
use vsync.Commands.Memory.{cmd_peek, cmd_poke, peek_count}
use vsync.Commands.Peek.{peek_events, cmd_peek_reads}
use vsync.Commands.Poke.{poke_events, cmd_poke_writes, cmd_poke_refuses}
use vsync.Commands.Registers.{cmd_gpio, is_word_arg, gpio_read, gpio_write, gpio_mask, gpio_show}
use vsync.Commands.Accesses.{Access, Accesses}
use vsync.Commands.Shows.{
  gpio_show-Accesses, gpio_read-Accesses, gpio_write-Accesses, gpio_mask-Accesses,
}

module _ {S : Type 0} (io : Io S) (laws : IoLaws io) where
  -- The code returns from every state, with events behind the log.
  pub record Returns (m : M S (Unit {0})) : Type 0 where
    pub from :
        (s : S) → (es : List Event) × (rest : List ℕ) × Does laws.input laws.log m s tt es rest

  pub Returns-Prints :
      (m : M S (Unit {0})) (out : List ℕ) → Prints laws.input laws.log m out → Returns m
  Returns-Prints m out p = record { from = λ s. (map put out, laws.input s, p s) }

  pub Returns-Accesses :
      (m : M S (Unit {0})) (todo : List Access) → Accesses io laws m todo → Returns m
  Returns-Accesses m todo a = record { from = λ s. let (es, rest, d, q) = a.run s in (es, rest, d) }

  message : (text : List ℕ) → Returns (shell_puts io text)
  message text = Returns-Prints (shell_puts io text) (cstr text) (shell_puts-cstr io laws text)

  Returns-if :
      (b : Bool) (m k : M S (Unit {0})) → Returns m → Returns k → Returns (if b then m else k)
  Returns-if true m k p q = p
  Returns-if false m k p q = q

  pub cmd_gpio-Returns : (args : List (List ℕ)) → Returns (cmd_gpio io args)
  unfolding cmd_gpio
  cmd_gpio-Returns args =
      Returns-if (leb 2 (argc args) && is_word_arg (argv args 1) "read") (gpio_read io) _
        (Returns-Accesses (gpio_read io) _ (gpio_read-Accesses io laws))
        (Returns-if (leb 3 (argc args) && is_word_arg (argv args 1) "write") (gpio_write io _) _
          (Returns-Accesses (gpio_write io _) _ (gpio_write-Accesses io laws (argv args 2) _ refl))
          (Returns-if (leb 3 (argc args) && is_word_arg (argv args 1) "dir") (gpio_mask io _) _
            (Returns-Accesses (gpio_mask io _) _ (gpio_mask-Accesses io laws (argv args 2) _ refl))
            (Returns-Accesses (gpio_show io) _ (gpio_show-Accesses io laws))))

  poke_refused :
      (args : List (List ℕ))
      → ((argc args < 3) ⊎ (hex_to_uint32 (argv args 1) ≡ none))
        ⊎ (hex_to_uint32 (argv args 2) ≡ none)
      → Returns (cmd_poke io args)
  poke_refused args bad =
      let (text, p) = cmd_poke_refuses io laws args bad in Returns-Prints (cmd_poke io args) text p

  pub cmd_poke-Returns : (args : List (List ℕ)) → Returns (cmd_poke io args)
  cmd_poke-Returns args = elim (Bool-cases (ltb (argc args) 3)) [
    | inl few ↦ poke_refused args (inl (inl (ground arith)))
    | inr enough ↦ elim (Option-cases (hex_to_uint32 (argv args 1))) [
      | inl no_addr ↦ poke_refused args (inl (inr no_addr))
      | inr (a, addr) ↦ elim (Option-cases (hex_to_uint32 (argv args 2))) [
        | inl no_val ↦ poke_refused args (inr no_val)
        | inr (v, val) ↦ record {
          from = λ s.
              let (r, d) = cmd_poke_writes io laws args a v s (ground arith) addr val in
              (poke_events (word_align a) v r.0, r.1, d);
        }
      ]
    ]
  ]

  pub cmd_peek-Returns : (args : List (List ℕ)) → Returns (cmd_peek io args)
  unfolding cmd_peek
  cmd_peek-Returns args = elim (Bool-cases (ltb (argc args) 2)) [
    | inl few ↦ rw (few, cmd_peek) (message (codes "Usage: peek <addr> [count]\r\n"))
    | inr enough ↦ elim (Option-cases (hex_to_uint32 (argv args 1))) [
      | inl no_addr ↦ rw (enough, no_addr, cmd_peek) (message (codes "Error: invalid address\r\n"))
      | inr (a, addr) ↦ elim (Option-cases (peek_count args)) [
        | inl no_count ↦
            rw (enough, addr, no_count, cmd_peek) (message (codes "Error: invalid count\r\n"))
        | inr (n, count) ↦ record {
          from = λ s.
              let (vals, len, (rest, d)) =
                cmd_peek_reads io laws args a n s (ground arith) addr count in
              (peek_events (word_align a) 0 vals, rest, d);
        }
      ]
    ]
  ]
