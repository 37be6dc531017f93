-- ===== src/Shell/Monitor/Dispatch.antt =====
-- cmd_load and dispatch_command, by what a line asks for.
use vsync.Prelude.{
  List, Option, [], ap, arith, codes, cstr, false, leb, length, none, refl, some, true, ℕ, ◌∙◌, ◌∷◌,
  ◌≡◌,
}
use vsync.Hex.Parse.{hex_meaning}
use vsync.Machine.{M, Io, IoLaws}
use vsync.Machine.Memory.{Memory, MemoryLaws, World, Acts, Acts-pure, Acts-Prints, world-Does}
use vsync.Args.Words.{words}
use vsync.Commands.{argc, imem_base}
use vsync.Commands.ArgWords.{Given, argv-hex, argc-Given}
use vsync.Commands.Load.{cmd_buf_size, address_arg, cmd_load}
use vsync.Commands.Script.{Typed, typed_text, IsTyped, IsCancelled, is_last}
use vsync.Commands.Stores.{Writes, write_words, after-stores}
use vsync.Commands.Loading.{cmd_load-Writes, cmd_load_aborts}
use vsync.Shell.{Command, Fuel, dispatch_command, run_command, help, info, poke, peek, load}
use vsync.Commands.System.{cmd_help, cmd_info}
use vsync.Commands.Texts.{help_text, info_text, cmd_help-Prints, cmd_info-Prints}
use vsync.Shell.Table.{command_name}
use vsync.Shell.Dispatch.{dispatch_command_blank, dispatch_command_runs, dispatch_command_unknown}
use vsync.Shell.Monitor.{
  Request, load_words, load_aborted, complaint, Loads, Asks, asks_nothing, asks_help, asks_info,
  asks_poke, asks_peek, asks_load, asks_load_imem, asks_load_aborted, asks_unknown, no_value,
  one_value, no_address, bad_poke_address, bad_poke_value, bad_peek_address, bad_load_address,
  bad_count,
}
use vsync.Shell.Monitor.Answers.{
  Serves, complains, cmd_poke-Serves, cmd_poke-few, cmd_poke-address, cmd_poke-value,
  cmd_peek-Serves, cmd_peek-few, cmd_peek-address, cmd_peek-count,
}

-- The address of load.
address_arg-hex :
    (args : List (List ℕ)) (wa : List ℕ) (more : List (List ℕ)) (o : Option ℕ)
    → Given args (codes "load" ∷ wa ∷ more)
    → hex_meaning wa ≡ o
    → address_arg args ≡ o
unfolding address_arg
address_arg-hex args wa more o texts h =
    let line = codes "load" ∷ wa ∷ more in
    let enough : leb 2 (argc args) ≡ true = ground (arith, argc-Given args line texts) in
    rw (enough, address_arg) (argv-hex args line 1 texts ∙ h)

address_arg-none :
    (args : List (List ℕ)) → Given args (codes "load" ∷ []) → address_arg args ≡ some imem_base
unfolding address_arg
address_arg-none args texts =
    let few : leb 2 (argc args) ≡ false =
      ground (arith, argc-Given args (codes "load" ∷ []) texts) in
    rw (few, address_arg)

module _ {S : Type 0} (io : Io S) (laws : IoLaws io) (words_kept : MemoryLaws io laws) where
  abbrev Acting : M S (Unit {0}) → World → List ℕ → World → Type 0
  Acting = Acts io laws words_kept

  abbrev Serving : M S (Unit {0}) → Request → Type 0
  Serving = Serves io laws words_kept

  Acts-Writes :
      (m : M S (Unit {0})) (inp rest out : List ℕ) (mem : Memory) (ps : List (ℕ × ℕ))
      → ((s : S) → laws.input s ≡ inp → Writes laws.input laws.log m s ps out rest)
      → Acting m
          (record { input = inp; memory = mem })
          out
          (record { input = rest; memory = write_words mem ps })
  Acts-Writes m inp rest out mem ps h = record {
    run = λ s e.
        let (es, d, stored, screen) = h s (ap (λ (w : World). w.input) e) in
        let (s', run, v, l) = world-Does io laws words_kept m s tt es rest _ d e in
        (s', run, v ∙ rw (after-stores mem es, stored) refl, l ∙ rw screen refl);
  }

  module _ (fuel : Fuel) (line_buf : List ℕ) (size : length line_buf ≡ cmd_buf_size) where
    abbrev load_code : List (List ℕ) → M S (Unit {0})
    load_code args = cmd_load io fuel.lines fuel.keys line_buf args

    cmd_load-Serves :
        (args : List (List ℕ)) (a : ℕ) (body : List Typed) (end : Typed)
        → address_arg args ≡ some a
        → Loads laws.is_memory fuel a body
        → IsTyped fuel.keys end
        → is_last (typed_text end) ≡ true
        → Serving (load_code args) (load_words a body end)
    cmd_load-Serves args a body end addr (ok, enough, mem) ok' last m rest =
        Acts-Writes _ _ rest _ m _ λ s inp.
          cmd_load-Writes io laws fuel.lines fuel.keys line_buf args a s body end rest addr size ok
            enough mem inp ok' last

    cmd_load_aborts-Serves :
        (args : List (List ℕ)) (a : ℕ) (body : List Typed) (end : Typed)
        → address_arg args ≡ some a
        → Loads laws.is_memory fuel a body
        → IsCancelled fuel.keys end
        → Serving (load_code args) (load_aborted a body end)
    cmd_load_aborts-Serves args a body end addr (ok, enough, mem) ok' m rest =
        Acts-Writes _ _ rest _ m _ λ s inp.
          cmd_load_aborts io laws fuel.lines fuel.keys line_buf args a s body end rest addr size ok
            enough mem inp ok'

    cmd_load-address :
        (args : List (List ℕ))
        → address_arg args ≡ none
        → Serving (load_code args) (complaint (codes "Error: invalid address\r\n"))
    unfolding cmd_load
    cmd_load-address args addr m rest =
        rw (addr, cmd_load)
          (complains io laws words_kept (codes "Error: invalid address\r\n") m rest)

    -- A line that names a command.
    by_command :
        (buf : List ℕ) (c : Command) (ws : List (List ℕ)) (r : Request)
        → words (cstr buf) ≡ command_name c ∷ ws
        → ((args : List (List ℕ))
            → Given args (command_name c ∷ ws)
            → Serving (run_command io fuel c line_buf args) r)
        → Serving (dispatch_command io fuel line_buf buf) r
    by_command buf c ws r e h mem rest =
        let (args, texts, run) = dispatch_command_runs io fuel line_buf buf c ws e in
        rw run (h args texts mem rest)

    -- `dispatch_command` does what the words of the line ask for.
    pub dispatch_command-Serves :
        (buf : List ℕ) (ws : List (List ℕ)) (r : Request)
        → Asks laws.is_memory fuel ws r
        → words (cstr buf) ≡ ws
        → Serving (dispatch_command io fuel line_buf buf) r
    unfolding run_command command_name
    dispatch_command-Serves buf _ _ asks_nothing e = λ mem rest.
        rw (dispatch_command_blank io fuel line_buf buf e) (Acts-pure io laws words_kept _)
    dispatch_command-Serves buf _ _ (asks_unknown {w} {ws} other) e = λ mem rest.
        Acts-Prints io laws words_kept _ _ _
          (dispatch_command_unknown io fuel line_buf buf laws w ws e other)
    dispatch_command-Serves buf _ r (asks_help {ws}) e =
        by_command buf help ws r e λ args texts mem rest.
          Acts-Prints io laws words_kept (cmd_help io) _ help_text (cmd_help-Prints io laws)
    dispatch_command-Serves buf _ r (asks_info {ws}) e =
        by_command buf info ws r e λ args texts mem rest.
          Acts-Prints io laws words_kept (cmd_info io) _ info_text (cmd_info-Prints io laws)
    dispatch_command-Serves buf _ r (asks_poke {wa} {wv} {more} {a} {v} ha hv mem) e =
        by_command buf poke (wa ∷ wv ∷ more) r e
          λ args texts. cmd_poke-Serves io laws words_kept args wa wv more a v texts ha hv mem
    dispatch_command-Serves buf _ r (asks_peek {wa} {more} {a} {n} ha counts mem) e =
        by_command buf peek (wa ∷ more) r e
          λ args texts. cmd_peek-Serves io laws words_kept args wa more a n texts ha counts mem
    dispatch_command-Serves buf _ r (asks_load {wa} {more} {a} {body} {end} ha ok ok' last) e =
        by_command buf load (wa ∷ more) r e λ args texts.
          cmd_load-Serves args a body end (address_arg-hex args wa more (some a) texts ha) ok ok'
            last
    dispatch_command-Serves buf _ r (asks_load_imem {body} {end} ok ok' last) e =
        by_command buf load [] r e λ args texts.
          cmd_load-Serves args imem_base body end (address_arg-none args texts) ok ok' last
    dispatch_command-Serves buf _ r (asks_load_aborted {wa} {more} {a} {body} {end} ha ok ok') e =
        by_command buf load (wa ∷ more) r e λ args texts.
          cmd_load_aborts-Serves args a body end (address_arg-hex args wa more (some a) texts ha) ok
            ok'
    dispatch_command-Serves buf _ r no_value e =
        by_command buf poke [] r e
          λ args texts. cmd_poke-few io laws words_kept args (codes "poke" ∷ []) texts (omega arith)
    dispatch_command-Serves buf _ r (one_value {wa}) e =
        by_command buf poke (wa ∷ []) r e λ args texts.
          cmd_poke-few io laws words_kept args (codes "poke" ∷ wa ∷ []) texts (omega arith)
    dispatch_command-Serves buf _ r no_address e =
        by_command buf peek [] r e
          λ args texts. cmd_peek-few io laws words_kept args (codes "peek" ∷ []) texts (omega arith)
    dispatch_command-Serves buf _ r (bad_poke_address {wa} {wv} {more} ha) e =
        by_command buf poke (wa ∷ wv ∷ more) r e
          λ args texts. cmd_poke-address io laws words_kept args wa wv more texts ha
    dispatch_command-Serves buf _ r (bad_poke_value {wa} {wv} {more} {a} ha hv) e =
        by_command buf poke (wa ∷ wv ∷ more) r e
          λ args texts. cmd_poke-value io laws words_kept args wa wv more a texts ha hv
    dispatch_command-Serves buf _ r (bad_peek_address {wa} {more} ha) e =
        by_command buf peek (wa ∷ more) r e
          λ args texts. cmd_peek-address io laws words_kept args wa more texts ha
    dispatch_command-Serves buf _ r (bad_count {wa} {wn} {more} {a} ha other hn) e =
        by_command buf peek (wa ∷ wn ∷ more) r e
          λ args texts. cmd_peek-count io laws words_kept args wa wn more a texts ha other hn
    dispatch_command-Serves buf _ r (bad_load_address {wa} {more} ha) e =
        by_command buf load (wa ∷ more) r e
          λ args texts. cmd_load-address args (address_arg-hex args wa more none texts ha)
