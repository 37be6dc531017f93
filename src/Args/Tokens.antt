-- ===== src/Args/Tokens.antt =====
-- parse_args against the words of the line.
use vsync.Prelude.{
  List, [], ap, append-nil, append_assoc, arith, cstr, drop, drop-append, drop-length, get_or,
  get_or-append, get_or-length, inl, inr, length, length-append, map, refl, set, set-append,
  set-length, suc, sym, take, take-nil, true, zero, ℕ, ◌++◌, ◌+◌, ◌∙◌, ◌∷◌, ◌≡◌, ◌≢◌, ◌⊎◌,
}
use vsync.Args.{arg_text, parse_args, max_args, skip_spaces, find_end, parse_loop}
use vsync.Args.Words.{words_from}
use vsync.Args.Words.{
  words, are_spaces, is_word, AtEnd, split_spaces, split_word, skip_spaces-run, find_end-run_space,
  find_end-run_end, cstr-word, cstr-AtEnd, words-cstr_spaces, words-cstr_space, words-cstr_end,
}
use vsync.Args.{arg_text}
use native.Mathlib.Nat.{add_assoc}

module _ (slots : ℕ) (buf : List ℕ) (p start end : ℕ) (argv : List ℕ) where
  -- One round of the loop, by the three characters that it looks at.
  round_cut :
      start ≡ p + skip_spaces (drop p buf)
      → end ≡ start + find_end (drop start buf)
      → get_or buf p 0 ≢ 0
      → get_or buf start 0 ≢ 0
      → get_or buf end 0 ≢ 0
      → parse_loop (suc slots) buf p argv
        ≡ parse_loop slots (set buf end 0) (end + 1) (argv ++ (start ∷ []))
  unfolding parse_loop
  round_cut s e a b c = ground arith

  round_last :
      start ≡ p + skip_spaces (drop p buf)
      → end ≡ start + find_end (drop start buf)
      → get_or buf p 0 ≢ 0
      → get_or buf start 0 ≢ 0
      → get_or buf end 0 ≡ 0
      → parse_loop (suc slots) buf p argv ≡ parse_loop slots buf end (argv ++ (start ∷ []))
  unfolding parse_loop
  round_last s e a b c = ground arith

  round_spaces :
      start ≡ p + skip_spaces (drop p buf)
      → get_or buf start 0 ≡ 0
      → parse_loop (suc slots) buf p argv ≡ record { buf = buf; argv = argv }
  unfolding parse_loop
  round_spaces s b = ground arith

round_end :
    (slots : ℕ) (buf : List ℕ) (p : ℕ) (argv : List ℕ)
    → get_or buf p 0 ≡ 0
    → parse_loop slots buf p argv ≡ record { buf = buf; argv = argv }
unfolding parse_loop
round_end zero buf p argv h = refl
round_end (suc slots) buf p argv h = ground arith

-- The characters and places of a memory that is cut as `pre ++ (sp ++ (w ++ r))`.
module _ (pre sp w r : List ℕ) where
  at_start : drop (length pre + length sp) (pre ++ (sp ++ (w ++ r))) ≡ w ++ r
  at_start = drop-append pre _ (length sp) ∙ drop-length sp _

  get_start : get_or (pre ++ (sp ++ (w ++ r))) (length pre + length sp) 0 ≡ get_or (w ++ r) 0 0
  get_start = get_or-append pre _ (length sp) 0 ∙ get_or-length sp _ 0

  get_end : get_or (pre ++ (sp ++ (w ++ r))) (length pre + length sp + length w) 0 ≡ get_or r 0 0
  get_end = rw add_assoc (
      get_or-append pre _ (length sp + length w) 0
      ∙ get_or-append sp _ (length w) 0
      ∙ get_or-length w r 0)

  set_end :
      set (pre ++ (sp ++ (w ++ r))) (length pre + length sp + length w) 0
      ≡ pre ++ (sp ++ (w ++ set r 0 0))
  set_end = rw (
    add_assoc,
    set-append pre _ (length sp + length w) 0,
    set-append sp _ (length w) 0,
    set-length w r 0,
  )

-- The result of the loop from the end of `pre` on: the memory in front is untouched, and the new
-- arguments read as the first words of the rest.
abbrev Tokens : ℕ → List ℕ → List ℕ → List ℕ → Type 0
Tokens slots pre rest argv =
    (rest' new : List ℕ) × (parse_loop slots (pre ++ rest) (length pre) argv
      ≡ record { buf = pre ++ rest'; argv = argv ++ new })
    × (map (arg_text (pre ++ rest')) new ≡ take slots (words (cstr rest)))

head_of_spaces :
    (sp t : List ℕ) → are_spaces sp ≡ true → get_or t 0 0 ≢ 0 → get_or (sp ++ t) 0 0 ≢ 0
head_of_spaces [] t h n = n
head_of_spaces (c ∷ sp) t h n = ground arith

module _ (slots : ℕ) (pre sp : List ℕ) (argv : List ℕ) (spaces : are_spaces sp ≡ true) where
  at_spaces :
      (t : List ℕ)
      → get_or t 0 0 ≢ b' '
      → length pre + length sp ≡ length pre + skip_spaces (drop (length pre) (pre ++ (sp ++ t)))
  at_spaces t n = rw (drop-length pre (sp ++ t), skip_spaces-run sp t spaces n)

  at_p : (t : List ℕ) → get_or t 0 0 ≢ 0 → get_or (pre ++ (sp ++ t)) (length pre) 0 ≢ 0
  at_p t n = rw (get_or-length pre (sp ++ t) 0) (head_of_spaces sp t spaces n)

  -- The first argument of a memory whose word is terminated.
  first_arg :
      (w r : List ℕ)
      → is_word w ≡ true
      → AtEnd r
      → arg_text (pre ++ (sp ++ (w ++ r))) (length pre + length sp) ≡ w
  first_arg w r h k = rw (at_start pre sp w r, cstr-word w r h, cstr-AtEnd r k, append-nil)

  Tokens-spaces : (t : List ℕ) → AtEnd t → Tokens (suc slots) pre (sp ++ t) argv
  Tokens-spaces t k = (
    sp ++ t,
    [],
    rw append-nil (
        round_spaces slots _ (length pre) (length pre + length sp) 0 argv
          (at_spaces t (omega (arith, k))) (get_start pre sp [] t ∙ k)),
    rw (words-cstr_spaces sp t spaces, cstr-AtEnd t k) (unfold words_from in refl),
  )

  Tokens-last :
      (c : ℕ) (w r : List ℕ)
      → is_word (c ∷ w) ≡ true
      → AtEnd r
      → Tokens (suc slots) pre (sp ++ ((c ∷ w) ++ r)) argv
  Tokens-last c w r h k =
      let start = length pre + length sp in
      let end = start + length (c ∷ w) in
      let buf = pre ++ (sp ++ ((c ∷ w) ++ r)) in
      (
        sp ++ ((c ∷ w) ++ r),
        start ∷ [],
        round_last slots buf (length pre) start end argv (at_spaces ((c ∷ w) ++ r) (ground arith))
              (rw (at_start pre sp (c ∷ w) r, find_end-run_end (c ∷ w) r h k))
              (at_p ((c ∷ w) ++ r) (ground arith)) (rw (get_start pre sp (c ∷ w) r) (ground arith))
              (get_end pre sp (c ∷ w) r ∙ k)
            ∙ round_end slots buf end _ (get_end pre sp (c ∷ w) r ∙ k),
        rw (first_arg (c ∷ w) r h k, words-cstr_spaces sp ((c ∷ w) ++ r) spaces)
            (rw (words-cstr_end c w r h k)
              (ap (λ (t : List (List ℕ)). (c ∷ w) ∷ t) (sym (take-nil slots)))),
      )

  -- The memory up to and including the terminator that is put behind the word.
  joined : (w t : List ℕ) → (pre ++ (sp ++ (w ++ 0 ∷ []))) ++ t ≡ pre ++ (sp ++ (w ++ 0 ∷ t))
  joined w t = simp append_assoc

  length-joined :
      (w : List ℕ) → length (pre ++ (sp ++ (w ++ 0 ∷ []))) ≡ length pre + length sp + length w + 1
  length-joined w = omega (
    arith,
    length-append pre (sp ++ (w ++ 0 ∷ [])),
    length-append sp (w ++ 0 ∷ []),
    length-append w (0 ∷ []),
  )

  Tokens-cut :
      (c : ℕ) (w r : List ℕ)
      → is_word (c ∷ w) ≡ true
      → ((q argv : List ℕ) → Tokens slots q r argv)
      → Tokens (suc slots) pre (sp ++ ((c ∷ w) ++ b' ' ∷ r)) argv
  Tokens-cut c w r h ih =
      let v = c ∷ w in
      let start = length pre + length sp in
      let end = start + length v in
      let buf = pre ++ (sp ++ (v ++ b' ' ∷ r)) in
      let (rest', new, e, m) = ih (pre ++ (sp ++ (v ++ 0 ∷ []))) (argv ++ (start ∷ [])) in
      let step : parse_loop (suc slots) buf (length pre) argv
          ≡ parse_loop slots (set buf end 0) (end + 1) (argv ++ (start ∷ [])) =
        round_cut slots buf (length pre) start end argv (at_spaces (v ++ b' ' ∷ r) (ground arith))
          (rw (at_start pre sp v (b' ' ∷ r), find_end-run_space v r h))
          (at_p (v ++ b' ' ∷ r) (ground arith)) (rw (get_start pre sp v (b' ' ∷ r)) (ground arith))
          (rw (get_end pre sp v (b' ' ∷ r)) (omega arith)) in
      (
        sp ++ (v ++ 0 ∷ rest'),
        start ∷ new,
        cc (
          step,
          set_end pre sp v (b' ' ∷ r),
          joined v r,
          joined v rest',
          length-joined v,
          e,
          append_assoc argv (start ∷ []) new,
        ),
        rw (first_arg v (0 ∷ rest') h refl, words-cstr_spaces sp (v ++ b' ' ∷ r) spaces)
            (rw (words-cstr_space c w r h)
              (ap (λ (t : List (List ℕ)). v ∷ t) (rw (joined v rest') at m))),
      )

Tokens-from :
    (slots : ℕ) (pre sp w r argv : List ℕ)
    → are_spaces sp ≡ true
    → is_word w ≡ true
    → get_or (w ++ r) 0 0 ≢ b' '
    → AtEnd r ⊎ ((r' : List ℕ) × (r ≡ b' ' ∷ r'))
    → ((q rest argv : List ℕ) → Tokens slots q rest argv)
    → Tokens (suc slots) pre (sp ++ (w ++ r)) argv
Tokens-from slots pre sp [] r argv spaces h n (inl k) ih =
    Tokens-spaces slots pre sp argv spaces r k
Tokens-from slots pre sp [] r argv spaces h n (inr (r', e)) ih = absurd (n (rw e))
Tokens-from slots pre sp (c ∷ w) r argv spaces h n (inl k) ih =
    Tokens-last slots pre sp argv spaces c w r h k
Tokens-from slots pre sp (c ∷ w) r argv spaces h n (inr (r', e)) ih =
    rw e (Tokens-cut slots pre sp argv spaces c w r' h (λ q l. ih q r' l))

tokens : (slots : ℕ) (pre rest argv : List ℕ) → Tokens slots pre rest argv
tokens zero pre rest argv = (rest, [], rw append-nil (unfold parse_loop in refl), refl)
tokens (suc slots) pre rest argv =
    let (sp, t, e, spaces, n) = split_spaces rest in
    let (w, r, e', h, k) = split_word t in
    rw (e, e') (Tokens-from slots pre sp w r argv spaces h (rw (← e') n) k (tokens slots))

-- `parse_args` sets argv to the words of the line, at most MAX_ARGS + 1 of them: the text at each
-- stored pointer, in the line with its terminators put in, is the word.
pub parse_args-words :
    (buf : List ℕ)
    → let r = parse_args buf in map (arg_text r.buf) r.argv ≡ take (max_args + 1) (words (cstr buf))
unfolding parse_args
parse_args-words buf = let (rest', new, e, m) = tokens (max_args + 1) [] buf [] in rw e m
