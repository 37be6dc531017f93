-- ===== src/Args/Bounds.antt =====
-- parse_args stays inside the command line and inside argv.
use vsync.Prelude.{
  All, All-append, Bool-cases, List, [], ap, arith, cstr, drop, false, get_or, inl, inr, length,
  length-append, refl, set, subst, suc, sym, zero, ℕ, ◌++◌, ◌+◌, ◌<◌, ◌==◌, ◌||◌, ◌∙◌, ◌∷◌, ◌≡◌,
  ◌≢◌, ◌≤◌,
}
use vsync.Args.{max_args, skip_spaces, find_end, Parsed, parse_loop, parse_args}

-- The text at a pointer ends inside the memory.
abbrev pub Terminated : List ℕ → Type 0
Terminated s = length (cstr s) < length s

Terminated-tail : (c : ℕ) (s : List ℕ) → c ≢ 0 → Terminated (c ∷ s) → Terminated s
Terminated-tail c s n t = ground arith

Terminated-skip : (s : List ℕ) → Terminated s → Terminated (drop (skip_spaces s) s)
unfolding skip_spaces
Terminated-skip [] t = t
Terminated-skip (c ∷ s) t = elim (Bool-cases (c == b' ')) [
  | inl space ↦ rw space (Terminated-skip s (Terminated-tail c s (ground arith) t))
  | inr other ↦ rw other t
]

Terminated-find : (s : List ℕ) → Terminated s → Terminated (drop (find_end s) s)
unfolding find_end
Terminated-find [] t = t
Terminated-find (c ∷ s) t = elim (Bool-cases (c == 0 || c == b' ')) [
  | inl at_end ↦ rw at_end t
  | inr other ↦ rw other (Terminated-find s (Terminated-tail c s (ground arith) t))
]

-- A terminator more does no harm.
Terminated-set :
    (buf : List ℕ) (q i : ℕ) → Terminated (drop q buf) → Terminated (drop q (set buf i 0))
Terminated-set [] q i t = t
Terminated-set (c ∷ buf) zero zero t = omega arith
Terminated-set (c ∷ buf) zero (suc i) t = elim (Bool-cases (c == 0)) [
  | inl z ↦ ground arith
  | inr n ↦ let ih = Terminated-set buf zero i (ground arith) in ground arith
]
Terminated-set (c ∷ buf) (suc q) zero t = t
Terminated-set (c ∷ buf) (suc q) (suc i) t = Terminated-set buf q i t

Terminated-next :
    (buf : List ℕ) (i : ℕ)
    → (get_or buf i 0 == 0) ≡ false
    → Terminated (drop i buf)
    → Terminated (drop (suc i) buf)
Terminated-next [] i n t = ground arith
Terminated-next (c ∷ buf) zero n t = Terminated-tail c buf (ground arith) t
Terminated-next (c ∷ buf) (suc i) n t = Terminated-next buf i n t

one_more : (n : ℕ) → suc n ≡ n + 1
one_more n = omega arith

drop_nil : (n : ℕ) → drop {A = ℕ} n [] ≡ []
drop_nil zero = refl
drop_nil (suc n) = refl

drop-drop : (m n : ℕ) (s : List ℕ) → drop n (drop m s) ≡ drop (m + n) s
drop-drop zero n s = let e : n ≡ 0 + n = omega arith in ap (λ k. drop k s) e
drop-drop (suc m) n [] = drop_nil n ∙ sym (drop_nil (suc m + n))
drop-drop (suc m) n (c ∷ s) =
    let e : suc (m + n) ≡ suc m + n = omega arith in drop-drop m n s ∙ ap (λ k. drop k (c ∷ s)) e

length-set : (s : List ℕ) (i v : ℕ) → length (set s i v) ≡ length s
length-set [] i v = refl
length-set (c ∷ s) zero v = refl
length-set (c ∷ s) (suc i) v = ap suc (length-set s i v)

-- Every pointer of argv.
abbrev Held : List ℕ → List ℕ → Type 0
Held buf argv = All (λ p. Terminated (drop p buf)) argv

Held-set : (buf : List ℕ) (i : ℕ) (argv : List ℕ) → Held buf argv → Held (set buf i 0) argv
Held-set buf i [] h = tt
Held-set buf i (p ∷ argv) (t, h) = (Terminated-set buf p i t, Held-set buf i argv h)

-- Every argument ends inside the line, which keeps its size, and argv has room for them.
abbrev pub Bounded : ℕ → List ℕ → Parsed → Type 0
Bounded room buf parsed =
    All (λ p. Terminated (drop p parsed.buf)) parsed.argv
    × (length parsed.buf ≡ length buf)
    × (length parsed.argv ≤ room)

parse_loop-Bounded :
    (slots : ℕ) (buf : List ℕ) (p : ℕ) (argv : List ℕ)
    → Terminated (drop p buf)
    → Held buf argv
    → Bounded (length argv + slots) buf (parse_loop slots buf p argv)
unfolding parse_loop
parse_loop-Bounded zero buf p argv t h = (h, refl, omega arith)
parse_loop-Bounded (suc slots) buf p argv t h =
    let start = p + skip_spaces (drop p buf) in
    let end = start + find_end (drop start buf) in
    let ts : Terminated (drop start buf) =
      subst Terminated (drop-drop p (skip_spaces (drop p buf)) buf)
        (Terminated-skip (drop p buf) t) in
    let te : Terminated (drop end buf) =
      subst Terminated (drop-drop start (find_end (drop start buf)) buf)
        (Terminated-find (drop start buf) ts) in
    let more = argv ++ (start ∷ []) in
    let held = All-append (λ q. Terminated (drop q buf)) argv (start ∷ []) h (ts, tt) in
    let room : length more + slots ≡ length argv + suc slots =
      omega (arith, length-append argv (start ∷ [])) in
    elim (Bool-cases (get_or buf p 0 == 0)) [
      | inl stops ↦ rw (stops, parse_loop) (h, refl, omega arith)
      | inr goes ↦ elim (Bool-cases (get_or buf start 0 == 0)) [
        | inl stops ↦ rw (goes, stops, parse_loop) (h, refl, omega arith)
        | inr word ↦ elim (Bool-cases (get_or buf end 0 == 0)) [
          | inl last ↦
              rw (goes, word, last, parse_loop, sym room)
                (parse_loop-Bounded slots buf end more te held)
          | inr cut ↦
              let next =
                subst (λ n. Terminated (drop n buf)) (one_more end)
                  (Terminated-next buf end cut te) in
              let (a, b, c) =
                parse_loop-Bounded slots (set buf end 0) (end + 1) more
                  (Terminated-set buf (end + 1) end next) (Held-set buf end more held) in
              rw (goes, word, cut, parse_loop) (a, b ∙ length-set buf end 0, omega (arith, room))
        ]
      ]
    ]

-- On a line that ends inside its memory, parse_args keeps the size of the memory, stores at most
-- MAX_ARGS + 1 pointers, and every one of them is to a text that ends inside the memory: no handler
-- that reads an argument up to its terminator leaves the buffer.
pub parse_args-Bounded :
    (buf : List ℕ) → Terminated buf → Bounded (max_args + 1) buf (parse_args buf)
unfolding parse_args
parse_args-Bounded buf t = parse_loop-Bounded (max_args + 1) buf 0 [] t tt
