-- ===== src/Shell/Monitor/Answers.antt =====
-- cmd_peek and cmd_poke, by what their arguments ask for.
use vsync.Prelude.{
  List, Option, Option-cases, [], arith, codes, cstr, false, inl, inr, leb, length, ltb, none, refl,
  some, subst, sym, take, true, ℕ, ◌+◌, ◌<◌, ◌∙◌, ◌∷◌, ◌≡◌,
}
use vsync.Hex.{hex_to_uint32}
use vsync.Hex.Parse.{hex_meaning}
use vsync.Decimal.{dec_to_uint32}
use vsync.Decimal.Parse.{IsNumber, dec_to_uint32_complete}
use vsync.Decimal.Overflow.{dec_to_uint32_sound}
use vsync.Machine.{M, Io, IoLaws}
use vsync.Machine.Memory.{Memory, MemoryLaws, World, Acts}
use vsync.Args.{max_args}
use vsync.Commands.{argc, argv, word_align}
use vsync.Commands.Memory.{cmd_peek, cmd_poke, peek_count, clamp_count}
use vsync.Commands.Peek.{word_at}
use vsync.Commands.Worlds.{Acts-puts, poke_word-Acts, peek_loop-Acts}
use vsync.Commands.ArgWords.{Given, argv-Given, argv-hex, argc-Given}
use vsync.Console.{shell_puts}
use vsync.Shell.Monitor.{
  Request, poke_word, peek_words, complaint, Counts, one, decimal, hexadecimal, answer,
  memory_after, request_chars,
}

-- What is no decimal number is no decimal count.
no_decimal : (w : List ℕ) → ¬ IsNumber (cstr w) → dec_to_uint32 w ≡ none
no_decimal w other = elim (Option-cases (dec_to_uint32 w)) [
  | inl refused ↦ refused
  | inr (v, accepted) ↦ absurd (other (dec_to_uint32_sound w accepted).0)
]

-- The count of peek, where it is not decimal.
peek_count-hex :
    (args : List (List ℕ)) (w wa wn : List ℕ) (more : List (List ℕ)) (o : Option ℕ)
    → Given args (w ∷ wa ∷ wn ∷ more)
    → ¬ IsNumber wn
    → hex_meaning wn ≡ o
    → peek_count args ≡ o
unfolding peek_count
peek_count-hex args w wa wn more o texts other h =
    let line = w ∷ wa ∷ wn ∷ more in
    let enough : leb 3 (argc args) ≡ true = ground (arith, argc-Given args line texts) in
    let text : cstr (argv args 2) ≡ wn = argv-Given args line 2 texts in
    let refused : dec_to_uint32 (argv args 2) ≡ none = no_decimal (argv args 2) (rw text other) in
    rw (enough, refused, peek_count) (argv-hex args line 2 texts ∙ h)

-- The count of peek.
Counts-peek_count :
    (args : List (List ℕ)) (w wa : List ℕ) (more : List (List ℕ)) (n : ℕ)
    → Given args (w ∷ wa ∷ more)
    → Counts more n
    → peek_count args ≡ some n
unfolding peek_count
Counts-peek_count args w wa [] n texts one =
    let few : leb 3 (argc args) ≡ false = ground (arith, argc-Given args (w ∷ wa ∷ []) texts) in
    rw (few, peek_count)
Counts-peek_count args w wa (wn ∷ more) n texts (decimal digits fits) =
    let enough : leb 3 (argc args) ≡ true =
      ground (arith, argc-Given args (w ∷ wa ∷ wn ∷ more) texts) in
    let text : cstr (argv args 2) ≡ wn = argv-Given args (w ∷ wa ∷ wn ∷ more) 2 texts in
    let read : dec_to_uint32 (argv args 2) ≡ some n =
      dec_to_uint32_complete (argv args 2) (rw text digits) (rw text fits) ∙ rw text refl in
    rw (enough, read, peek_count)
Counts-peek_count args w wa (wn ∷ more) n texts (hexadecimal other h) =
    peek_count-hex args w wa wn more (some n) texts other h

module _ {S : Type 0} (io : Io S) (laws : IoLaws io) (words_kept : MemoryLaws io laws) where
  abbrev Acting : M S (Unit {0}) → World → List ℕ → World → Type 0
  Acting = Acts io laws words_kept

  -- Code that does what a request says, whatever the memory holds and whatever is typed later.
  abbrev pub Serves : M S (Unit {0}) → Request → Type 0
  Serves m r =
      (mem : Memory) (rest : List ℕ)
      → Acting m (record { input = request_chars r rest; memory = mem }) (answer mem r)
          (record { input = rest; memory = memory_after mem r })

  pub complains : (message : List ℕ) → Serves (shell_puts io message) (complaint (cstr message))
  complains message mem rest = Acts-puts io laws words_kept message _

  module _ (args : List (List ℕ)) where
    pub cmd_poke-Serves :
        (wa wv : List ℕ) (more : List (List ℕ)) (a v : ℕ)
        → Given args (codes "poke" ∷ wa ∷ wv ∷ more)
        → hex_meaning wa ≡ some a
        → hex_meaning wv ≡ some v
        → laws.is_memory (word_align a) ≡ true
        → Serves (cmd_poke io args) (poke_word a v)
    unfolding cmd_poke
    cmd_poke-Serves wa wv more a v texts ha hv mem m rest =
        let line = codes "poke" ∷ wa ∷ wv ∷ more in
        let enough : ltb (argc args) 3 ≡ false = ground (arith, argc-Given args line texts) in
        let addr : hex_to_uint32 (argv args 1) ≡ some a = argv-hex args line 1 texts ∙ ha in
        let val : hex_to_uint32 (argv args 2) ≡ some v = argv-hex args line 2 texts ∙ hv in
        rw (enough, addr, val, cmd_poke) (poke_word-Acts io laws words_kept (word_align a) v _ mem)

    pub cmd_poke-few :
        (ws : List (List ℕ))
        → Given args ws
        → length (take (max_args + 1) ws) < 3
        → Serves (cmd_poke io args) (complaint (codes "Usage: poke <addr> <value>\r\n"))
    unfolding cmd_poke
    cmd_poke-few ws texts few m rest =
        let test : ltb (argc args) 3 ≡ true = ground (arith, argc-Given args ws texts) in
        rw (test, cmd_poke) (complains (codes "Usage: poke <addr> <value>\r\n") m rest)

    pub cmd_poke-address :
        (wa wv : List ℕ) (more : List (List ℕ))
        → Given args (codes "poke" ∷ wa ∷ wv ∷ more)
        → hex_meaning wa ≡ none
        → Serves (cmd_poke io args) (complaint (codes "Error: invalid address\r\n"))
    unfolding cmd_poke
    cmd_poke-address wa wv more texts ha m rest =
        let line = codes "poke" ∷ wa ∷ wv ∷ more in
        let enough : ltb (argc args) 3 ≡ false = ground (arith, argc-Given args line texts) in
        let addr : hex_to_uint32 (argv args 1) ≡ none = argv-hex args line 1 texts ∙ ha in
        rw (enough, addr, cmd_poke) (complains (codes "Error: invalid address\r\n") m rest)

    pub cmd_poke-value :
        (wa wv : List ℕ) (more : List (List ℕ)) (a : ℕ)
        → Given args (codes "poke" ∷ wa ∷ wv ∷ more)
        → hex_meaning wa ≡ some a
        → hex_meaning wv ≡ none
        → Serves (cmd_poke io args) (complaint (codes "Error: invalid value\r\n"))
    unfolding cmd_poke
    cmd_poke-value wa wv more a texts ha hv m rest =
        let line = codes "poke" ∷ wa ∷ wv ∷ more in
        let enough : ltb (argc args) 3 ≡ false = ground (arith, argc-Given args line texts) in
        let addr : hex_to_uint32 (argv args 1) ≡ some a = argv-hex args line 1 texts ∙ ha in
        let val : hex_to_uint32 (argv args 2) ≡ none = argv-hex args line 2 texts ∙ hv in
        rw (enough, addr, val, cmd_poke) (complains (codes "Error: invalid value\r\n") m rest)

    pub cmd_peek-Serves :
        (wa : List ℕ) (more : List (List ℕ)) (a n : ℕ)
        → Given args (codes "peek" ∷ wa ∷ more)
        → hex_meaning wa ≡ some a
        → Counts more n
        → ((i : ℕ) → i < clamp_count n → laws.is_memory (word_at (word_align a) i) ≡ true)
        → Serves (cmd_peek io args) (peek_words a n)
    unfolding cmd_peek
    cmd_peek-Serves wa more a n texts ha counts mem m rest =
        let line = codes "peek" ∷ wa ∷ more in
        let enough : ltb (argc args) 2 ≡ false = ground (arith, argc-Given args line texts) in
        let addr : hex_to_uint32 (argv args 1) ≡ some a = argv-hex args line 1 texts ∙ ha in
        let count = Counts-peek_count args (codes "peek") wa more n texts counts in
        rw (enough, addr, count, cmd_peek)
          (peek_loop-Acts io laws words_kept (word_align a) (clamp_count n) 0 _ λ i below.
            let e : 0 + i ≡ i = omega arith in
            subst (λ j. laws.is_memory (word_at (word_align a) j) ≡ true) (sym e) (mem i below))

    pub cmd_peek-few :
        (ws : List (List ℕ))
        → Given args ws
        → length (take (max_args + 1) ws) < 2
        → Serves (cmd_peek io args) (complaint (codes "Usage: peek <addr> [count]\r\n"))
    unfolding cmd_peek
    cmd_peek-few ws texts few m rest =
        let test : ltb (argc args) 2 ≡ true = ground (arith, argc-Given args ws texts) in
        rw (test, cmd_peek) (complains (codes "Usage: peek <addr> [count]\r\n") m rest)

    pub cmd_peek-count :
        (wa wn : List ℕ) (more : List (List ℕ)) (a : ℕ)
        → Given args (codes "peek" ∷ wa ∷ wn ∷ more)
        → hex_meaning wa ≡ some a
        → ¬ IsNumber wn
        → hex_meaning wn ≡ none
        → Serves (cmd_peek io args) (complaint (codes "Error: invalid count\r\n"))
    unfolding cmd_peek
    cmd_peek-count wa wn more a texts ha other hn m rest =
        let line = codes "peek" ∷ wa ∷ wn ∷ more in
        let enough : ltb (argc args) 2 ≡ false = ground (arith, argc-Given args line texts) in
        let addr : hex_to_uint32 (argv args 1) ≡ some a = argv-hex args line 1 texts ∙ ha in
        let count = peek_count-hex args (codes "peek") wa wn more none texts other hn in
        rw (enough, addr, count, cmd_peek) (complains (codes "Error: invalid count\r\n") m rest)

    pub cmd_peek-address :
        (wa : List ℕ) (more : List (List ℕ))
        → Given args (codes "peek" ∷ wa ∷ more)
        → hex_meaning wa ≡ none
        → Serves (cmd_peek io args) (complaint (codes "Error: invalid address\r\n"))
    unfolding cmd_peek
    cmd_peek-address wa more texts ha m rest =
        let line = codes "peek" ∷ wa ∷ more in
        let enough : ltb (argc args) 2 ≡ false = ground (arith, argc-Given args line texts) in
        let addr : hex_to_uint32 (argv args 1) ≡ none = argv-hex args line 1 texts ∙ ha in
        rw (enough, addr, cmd_peek) (complains (codes "Error: invalid address\r\n") m rest)
