-- ===== src/Args/Words.antt =====
-- The words of a line, and how the two scans of parse_args cut the memory.
use vsync.Prelude.{
  Bool, Bool-cases, List, [], all, append-nil, append_assoc, arith, cstr, false, get_or, inl, inr,
  length, not, refl, true, ℕ, ◌++◌, ◌==◌, ◌||◌, ◌∷◌, ◌≡◌, ◌≢◌, ◌⊎◌,
}
use vsync.Args.{skip_spaces, find_end}

-- The words of a text: the runs between spaces. `word` is the one that is being read.
abbrev pub flush : List ℕ → List (List ℕ) → List (List ℕ)
flush [] ws = ws
flush (c ∷ w) ws = (c ∷ w) ∷ ws

unfoldable pub words_from : List ℕ → List ℕ → List (List ℕ)
words_from word [] = flush word []
words_from word (c ∷ s) = elim (c == b' ') [
  | true ↦ flush word (words_from [] s)
  | false ↦ words_from (word ++ (c ∷ [])) s
]

abbrev pub words : List ℕ → List (List ℕ)
words s = words_from [] s

abbrev pub are_spaces : List ℕ → Bool
are_spaces = all (λ c. c == b' ')

-- A word: no space and no terminator.
abbrev pub is_word : List ℕ → Bool
is_word = all (λ c. not (c == 0 || c == b' '))

-- A token ends at a space, at a terminator, or with the memory.
abbrev pub AtEnd : List ℕ → Type 0
AtEnd t = get_or t 0 0 ≡ 0

pub split_spaces :
    (s : List ℕ) → (sp t : List ℕ) × (s ≡ sp ++ t) × (are_spaces sp ≡ true) × (get_or t 0 0 ≢ b' ')
split_spaces [] = ([], [], refl, refl, omega arith)
split_spaces (c ∷ s) = elim (Bool-cases (c == b' ')) [
  | inl space ↦ let (sp, t, e, h, n) = split_spaces s in (c ∷ sp, t, rw (← e), ground arith, n)
  | inr other ↦ ([], c ∷ s, refl, refl, ground arith)
]

pub split_word :
    (t : List ℕ)
    → (w r : List ℕ) × (t ≡ w ++ r)
      × (is_word w ≡ true)
      × (AtEnd r ⊎ ((r' : List ℕ) × (r ≡ b' ' ∷ r')))
split_word [] = ([], [], refl, refl, inl refl)
split_word (c ∷ t) = elim (Bool-cases (c == 0)) [
  | inl z ↦ ([], c ∷ t, refl, refl, inl (ground arith))
  | inr n ↦ elim (Bool-cases (c == b' ')) [
    | inl space ↦ ([], c ∷ t, refl, refl, inr (t, ground arith))
    | inr other ↦ let (w, r, e, h, k) = split_word t in (c ∷ w, r, rw (← e), ground arith, k)
  ]
]

pub skip_spaces-run :
    (sp t : List ℕ) → are_spaces sp ≡ true → get_or t 0 0 ≢ b' ' → skip_spaces (sp ++ t) ≡ length sp
unfolding skip_spaces
skip_spaces-run [] [] h n = refl
skip_spaces-run [] (c ∷ t) h n = ground arith
skip_spaces-run (c ∷ sp) t h n = ground (arith, skip_spaces-run sp t)

pub find_end-run_space : (w r : List ℕ) → is_word w ≡ true → find_end (w ++ b' ' ∷ r) ≡ length w
unfolding find_end
find_end-run_space [] r h = refl
find_end-run_space (c ∷ w) r h = ground (arith, find_end-run_space w r)

pub find_end-run_end : (w r : List ℕ) → is_word w ≡ true → AtEnd r → find_end (w ++ r) ≡ length w
unfolding find_end
find_end-run_end [] [] h k = refl
find_end-run_end [] (c ∷ r) h k = ground arith
find_end-run_end (c ∷ w) r h k = ground (arith, find_end-run_end w r)

-- The words of a text that begins with a word, or with spaces.
cstr-spaces : (sp t : List ℕ) → are_spaces sp ≡ true → cstr (sp ++ t) ≡ sp ++ cstr t
cstr-spaces [] t h = refl
cstr-spaces (c ∷ sp) t h = ground (arith, cstr-spaces sp t)

pub cstr-word : (w r : List ℕ) → is_word w ≡ true → cstr (w ++ r) ≡ w ++ cstr r
cstr-word [] r h = refl
cstr-word (c ∷ w) r h = ground (arith, cstr-word w r)

pub cstr-AtEnd : (r : List ℕ) → AtEnd r → cstr r ≡ []
cstr-AtEnd [] h = refl
cstr-AtEnd (c ∷ r) h = ground arith

words-spaces : (sp t : List ℕ) → are_spaces sp ≡ true → words (sp ++ t) ≡ words t
unfolding words_from
words-spaces [] t h = refl
words-spaces (c ∷ sp) t h = ground (arith, words-spaces sp t)

words_from-word :
    (w r word : List ℕ) → is_word w ≡ true → words_from word (w ++ r) ≡ words_from (word ++ w) r
unfolding words_from
words_from-word [] r word h = rw append-nil
words_from-word (c ∷ w) r word h =
    ground (arith, words_from-word w r (word ++ (c ∷ [])), append_assoc word (c ∷ []) w)

pub words-cstr_spaces :
    (sp t : List ℕ) → are_spaces sp ≡ true → words (cstr (sp ++ t)) ≡ words (cstr t)
words-cstr_spaces sp t h = rw (cstr-spaces sp t h) (words-spaces sp (cstr t) h)

pub words-cstr_space :
    (c : ℕ) (w r : List ℕ)
    → is_word (c ∷ w) ≡ true
    → words (cstr ((c ∷ w) ++ b' ' ∷ r)) ≡ (c ∷ w) ∷ words (cstr r)
words-cstr_space c w r h =
    rw (cstr-word (c ∷ w) (b' ' ∷ r) h, words_from-word (c ∷ w) (b' ' ∷ cstr r) [] h)
      (unfold words_from in refl)

pub words-cstr_end :
    (c : ℕ) (w r : List ℕ)
    → is_word (c ∷ w) ≡ true
    → AtEnd r
    → words (cstr ((c ∷ w) ++ r)) ≡ (c ∷ w) ∷ []
words-cstr_end c w r h k =
    rw (cstr-word (c ∷ w) r h, cstr-AtEnd r k, words_from-word (c ∷ w) [] [] h)
      (unfold words_from in refl)
