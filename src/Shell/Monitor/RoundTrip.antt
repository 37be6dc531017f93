-- ===== src/Shell/Monitor/RoundTrip.antt =====
-- What load writes, and what peek shows of it.
use vsync.Prelude.{
  All, Bool-cases, List, Option-cases, [], arith, codes, get_or, inl, inr, length, refl, subst, suc,
  zero, ℕ, ◌%◌, ◌*◌, ◌++◌, ◌+◌, ◌<◌, ◌^◌, ◌∙◌, ◌∷◌, ◌≡◌, ◌≢◌, ◌≤◌,
}
use vsync.Hex.Parse.{hex_meaning}
use vsync.Hex.Word.{hex_meaning-lt}
use vsync.Machine.Memory.{Memory, update}
use vsync.Commands.Poke.{hex_text}
use vsync.Commands.Peek.{word_at}
use vsync.Commands.Worlds.{peek_text}
use vsync.Commands.Stores.{write_words}
use vsync.Commands.Script.{words_of, at_words, is_comment}

-- The lines of peek for some words, from word `k` behind the address on.
unfoldable pub lines_of : ℕ → ℕ → List ℕ → List ℕ
lines_of addr k [] = []
lines_of addr k (v ∷ vs) =
    (hex_text (word_at addr k) ++ (codes ": " ++ (hex_text v ++ codes "\r\n")))
    ++ lines_of addr (k + 1) vs

-- A write to other words leaves a word alone.
write_words-other :
    (vs : List ℕ) (mem : Memory) (addr b : ℕ)
    → ((i : ℕ) → i < length vs → (addr + i * 4) % 2 ^ 32 ≢ b)
    → addr < 2 ^ 32
    → write_words mem (at_words addr vs) b ≡ mem b
write_words-other [] mem addr b h fits = refl
write_words-other (v ∷ vs) mem addr b h fits =
    let next = (addr + 4) % 2 ^ 32 in
    let apart : addr ≢ b = λ e. h 0 (omega arith) (omega (arith, e)) in
    let rest : write_words (update mem addr v) (at_words next vs) b ≡ update mem addr v b =
      write_words-other vs (update mem addr v) next b
        (λ i below e. h (suc i) (omega (arith, below)) (omega (arith, e))) (omega arith) in
    rest ∙ ground (arith, apart)

-- Words at consecutive addresses are read back.
pub write_words-word_at :
    (vs : List ℕ) (mem : Memory) (addr i : ℕ)
    → All (λ v. v < 2 ^ 32) vs
    → length vs * 4 ≤ 2 ^ 32
    → addr < 2 ^ 32
    → i < length vs
    → write_words mem (at_words addr vs) (word_at addr i) ≡ get_or vs i 0
write_words-word_at [] mem addr i all_words short fits below = absurd (omega arith)
write_words-word_at (v ∷ vs) mem addr zero (is_word, all_words) short fits below =
    let next = (addr + 4) % 2 ^ 32 in
    let here : word_at addr 0 ≡ addr = omega arith in
    rw here (
      write_words-other vs (update mem addr v) next addr (λ i small e. omega (arith, small, e))
        (omega arith)
      ∙ ground arith)
write_words-word_at (v ∷ vs) mem addr (suc i) (is_word, all_words) short fits below =
    let next = (addr + 4) % 2 ^ 32 in
    let there : word_at addr (suc i) ≡ word_at next i = omega arith in
    rw there (
      write_words-word_at vs (update mem addr v) next i all_words (omega arith) (omega arith)
        (omega arith))

-- `peek` shows the words that the memory holds.
pub peek_text-lines_of :
    (vs : List ℕ) (mem : Memory) (addr k : ℕ)
    → ((i : ℕ) → i < length vs → mem (word_at addr (k + i)) ≡ get_or vs i 0)
    → peek_text mem addr (length vs) k ≡ lines_of addr k vs
unfolding peek_text lines_of
peek_text-lines_of [] mem addr k h = refl
peek_text-lines_of (v ∷ vs) mem addr k h =
    let first : k + 0 ≡ k = omega arith in
    let here : mem (word_at addr k) ≡ v =
      subst (λ j. mem (word_at addr j) ≡ v) first (h 0 (omega arith)) in
    let rest = peek_text-lines_of vs mem addr (k + 1) λ i below.
      let e : k + suc i ≡ k + 1 + i = omega arith in
      subst (λ j. mem (word_at addr j) ≡ get_or vs i 0) e (h (suc i) (omega arith)) in
    rw (here, rest) refl

-- The words that lines spell are words.
pub words_of-All : (texts : List (List ℕ)) → All (λ v. v < 2 ^ 32) (words_of texts)
unfolding words_of
words_of-All [] = tt
words_of-All (text ∷ texts) = elim (Bool-cases (is_comment text)) [
  | inl comment ↦ rw (comment, words_of) (words_of-All texts)
  | inr other ↦ elim (Option-cases (hex_meaning text)) [
    | inl bad ↦ rw (other, bad, words_of) (words_of-All texts)
    | inr (v, good) ↦ rw (other, good, words_of) (hex_meaning-lt text v good, words_of-All texts)
  ]
]
