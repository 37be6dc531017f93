-- ===== src/Shell/Dispatch.antt =====
-- dispatch_command: which handler runs, with which arguments.
use vsync.Prelude.{
  List, Option-cases, [], ap, arith, codes, cstr, drop, fun_ext, inl, inr, map, refl, sym, take, ℕ,
  ◌++◌, ◌+◌, ◌∙◌, ◌∷◌, ◌≡◌, ◌≢◌, ◌⊎◌,
}
use vsync.Machine.{Io, IoLaws, pure}
use vsync.Machine.Effects.{Prints, Prints-then}
use vsync.Console.{shell_puts}
use vsync.Console.Output.{shell_puts-cstr}
use vsync.Args.{max_args, parse_args, arg_text}
use vsync.Args.Words.{words}
use vsync.Args.Tokens.{parse_args-words}
use vsync.Commands.{say}
use vsync.Shell.{
  Command, Fuel, cmd_table, find_command, run_command, unknown_command, dispatch_command,
}
use vsync.Shell.Table.{command_name, find_command_iff}

-- The memory behind each pointer that parse_args stores.
abbrev args_of : List ℕ → List (List ℕ)
args_of line = map (λ p. drop p (parse_args line).buf) (parse_args line).argv

map-cstr-drop :
    (buf argv : List ℕ) → map cstr (map (λ p. drop p buf) argv) ≡ map (arg_text buf) argv
map-cstr-drop buf [] = refl
map-cstr-drop buf (p ∷ argv) = ap (λ rest. cstr (drop p buf) ∷ rest) (map-cstr-drop buf argv)

args_of-words : (line : List ℕ) → map cstr (args_of line) ≡ take (max_args + 1) (words (cstr line))
args_of-words line =
    map-cstr-drop (parse_args line).buf (parse_args line).argv ∙ parse_args-words line

pub List-cases : {A : Type 0} (l : List A) → (l ≡ []) ⊎ ((a : A) × (rest : List A) × (l ≡ a ∷ rest))
List-cases [] = inl refl
List-cases (a ∷ rest) = inr (a, rest, refl)

-- The arguments of a line that has words.
first_word :
    (line w : List ℕ) (ws : List (List ℕ))
    → words (cstr line) ≡ w ∷ ws
    → (word : List ℕ) × (rest : List (List ℕ)) × (args_of line ≡ word ∷ rest)
      × (cstr word ≡ w)
      × (map cstr (word ∷ rest) ≡ take (max_args + 1) (w ∷ ws))
first_word line w ws e =
    let texts : map cstr (args_of line) ≡ take (max_args + 1) (w ∷ ws) =
      args_of-words line ∙ ap (take (max_args + 1)) e in
    elim (List-cases (args_of line)) [
      | inl none_stored ↦ absurd (ground (arith, texts, none_stored))
      | inr (word, rest, stored) ↦
          let texts' : map cstr (word ∷ rest) ≡ take (max_args + 1) (w ∷ ws) =
            ap (map cstr) (sym stored) ∙ texts in
          (word, rest, stored, ground (arith, texts'), texts')
    ]

-- The first word of a line is the name of a command, or of none.
pub names_command :
    (line w : List ℕ) (ws : List (List ℕ))
    → words (cstr line) ≡ w ∷ ws
    → ((c : Command) × (w ≡ command_name c)) ⊎ ((c : Command) → w ≢ command_name c)
names_command line w ws e =
    let (word, rest, stored, name, texts) = first_word line w ws e in
    elim (Option-cases (find_command cmd_table word)) [
      | inl missing ↦
          inr λ c same. absurd (ground (arith, missing, (find_command_iff word c).1 (name ∙ same)))
      | inr (c, found) ↦ inl (c, sym name ∙ (find_command_iff word c).0 found)
    ]

module _ {S : Type 0} (io : Io S) (fuel : Fuel) (line_buf line : List ℕ) where
  unknown-Prints :
      (laws : IoLaws io) (word : List ℕ)
      → Prints laws.input laws.log (unknown_command io fuel word) (
          codes "Unknown command: " ++ (cstr word ++ codes "\r\nType 'help' for command list.\r\n"))
  unfolding unknown_command
  unknown-Prints laws word =
      let i = laws.input in
      let l = laws.log in
      let hint = codes "\r\nType 'help' for command list.\r\n" in
      Prints-then i l (say io "Unknown command: ") _ (codes "Unknown command: ") (cstr word ++ hint)
        (shell_puts-cstr io laws (codes "Unknown command: "))
        (Prints-then i l (shell_puts io word) _ (cstr word) hint (shell_puts-cstr io laws word)
          (shell_puts-cstr io laws hint))

  -- On a line without words `dispatch_command` does nothing.
  pub dispatch_command_blank :
      words (cstr line) ≡ [] → dispatch_command io fuel line_buf line ≡ pure tt
  unfolding dispatch_command
  dispatch_command_blank e = elim (List-cases (args_of line)) [
    | inl none_stored ↦ fun_ext λ s. rw (none_stored, dispatch_command)
    | inr (word, rest, stored) ↦
        absurd (ground (arith, args_of-words line, ap (take (max_args + 1)) e, stored))
  ]

  -- On a line whose first word is the name of a command, `dispatch_command` is the handler of that
  -- command, with arguments whose texts are the words of the line, at most MAX_ARGS + 1 of them.
  pub dispatch_command_runs :
      (c : Command) (ws : List (List ℕ))
      → words (cstr line) ≡ command_name c ∷ ws
      → (args : List (List ℕ)) × (map cstr args ≡ take (max_args + 1) (command_name c ∷ ws))
        × (dispatch_command io fuel line_buf line ≡ run_command io fuel c line_buf args)
  unfolding dispatch_command
  dispatch_command_runs c ws e =
      let (word, rest, stored, name, texts) = first_word line (command_name c) ws e in
      let found = (find_command_iff word c).1 name in
      (word ∷ rest, texts, fun_ext λ s. rw (stored, found, dispatch_command))

  -- On a line whose first word names no command, `dispatch_command` only prints "Unknown command:
  -- ", the word, and a hint.
  pub dispatch_command_unknown :
      (laws : IoLaws io) (w : List ℕ) (ws : List (List ℕ))
      → words (cstr line) ≡ w ∷ ws
      → ((c : Command) → w ≢ command_name c)
      → Prints laws.input laws.log
          (dispatch_command io fuel line_buf line)
          (codes "Unknown command: " ++ (w ++ codes "\r\nType 'help' for command list.\r\n"))
  unfolding dispatch_command
  dispatch_command_unknown laws w ws e other =
      let (word, rest, stored, name, texts) = first_word line w ws e in
      elim (Option-cases (find_command cmd_table word)) [
        | inl missing ↦ rw (stored, missing, dispatch_command, ← name) (unknown-Prints laws word)
        | inr (c, found) ↦ absurd (other c (sym name ∙ (find_command_iff word c).0 found))
      ]
