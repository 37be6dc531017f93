-- ===== src/Posix/Write.antt =====
-- The traps of `write`: one for each byte, up to the first error.
use vsync.Prelude.{
  Bool-cases, List, [], ap, arith, false, inl, inr, length, refl, some, suc, take, true, zero, ℕ,
  ◌++◌, ◌∷◌, ◌≡◌, ◌≤◌, ◌⊎◌,
}
use vsync.Posix.{Kernel, is_negative, write_loop, write}
use vsync.Posix.Decode.{Trap, recording}

-- The traps for a list of bytes, on top of the earlier ones.
unfoldable pub write_traps : ℕ → List ℕ → List Trap → List Trap
write_traps fd [] traps = traps
write_traps fd (c ∷ p) traps =
    write_traps fd p (record { num = 0x53; args = fd ∷ c ∷ 1 ∷ [] } ∷ traps)

module _ {S : Type 0} (k : Kernel S) (fd : ℕ) where
  -- The answer to the call for one byte.
  abbrev pub answer : ℕ → S → ℕ
  answer c s = (k.ecall 0x53 (fd ∷ c ∷ 1 ∷ []) s).0

  -- The state after the calls for some bytes.
  abbrev pub after_bytes : List ℕ → S → S
  after_bytes [] s = s
  after_bytes (c ∷ p) s = after_bytes p (k.ecall 0x53 (fd ∷ c ∷ 1 ∷ []) s).1

  -- None of the calls for some bytes has a negative answer.
  pub data Accepts : List ℕ → S → Type 0 where
    no_bytes : {s : S} → Accepts [] s
    byte :
        {c : ℕ} {p : List ℕ} {s : S}
        → is_negative (answer c s) ≡ false
        → Accepts p (k.ecall 0x53 (fd ∷ c ∷ 1 ∷ []) s).1
        → Accepts (c ∷ p) s

  module _ (count : ℕ) where
    -- Of `left` bytes at `p`, `n` are sent: all of them, which the kernel accepts, and the count is
    -- returned; or the last one is refused and those before it are accepted, and the answer to the
    -- refused one is returned.
    abbrev pub Ends : List ℕ → ℕ → S → ℕ → ℕ → Type 0
    Ends p left s n ret =
        ((n ≡ left) × (ret ≡ count) × Accepts (take n p) s)
        ⊎ ((m c : ℕ) × (n ≡ suc m)
            × (n ≤ left)
            × (take n p ≡ take m p ++ (c ∷ []))
            × Accepts (take m p) s
            × (ret ≡ answer c (after_bytes (take m p) s))
            × (is_negative ret ≡ true))

    abbrev pub Sends : List ℕ → ℕ → S → List Trap → Type 0
    Sends p left s traps =
        (n ret : ℕ) × (write_loop (recording k) fd count p left (s, traps)
          ≡ some (ret, (after_bytes (take n p) s, write_traps fd (take n p) traps)))
        × Ends p left s n ret

    one_more :
        (c : ℕ) (p : List ℕ) (left n ret : ℕ) (s : S)
        → is_negative (answer c s) ≡ false
        → Ends p left (k.ecall 0x53 (fd ∷ c ∷ 1 ∷ []) s).1 n ret
        → Ends (c ∷ p) (suc left) s (suc n) ret
    one_more c p left n ret s good (inl (whole, same, accepted)) =
        inl (omega arith, same, byte good accepted)
    one_more c p left n ret s good (inr (m, d, last, most, split, accepted, same, neg)) =
        inr
          (suc m, d, omega arith, omega arith, ap (λ l. c ∷ l) split, byte good accepted, same, neg)

    sends :
        (p : List ℕ) (left : ℕ) (s : S) (traps : List Trap) → left ≤ length p → Sends p left s traps
    unfolding write_loop write_traps
    sends p zero s traps h = (0, count, refl, inl (refl, refl, no_bytes))
    sends [] (suc left) s traps h = absurd (omega arith)
    sends (c ∷ p) (suc left) s traps h = elim (Bool-cases (is_negative (answer c s))) [
      | inl neg ↦
          (1, answer c s, rw neg refl, inr (0, c, refl, omega arith, refl, no_bytes, refl, neg))
      | inr good ↦
          let (n, ret, e, ends) =
            sends p left (k.ecall 0x53 (fd ∷ c ∷ 1 ∷ []) s).1
              (record { num = 0x53; args = fd ∷ c ∷ 1 ∷ [] } ∷ traps) (omega arith) in
          (suc n, ret, rw good e, one_more c p left n ret s good ends)
    ]

    -- `write` on a buffer of at least `count` bytes makes one SYS_WRITE call for each byte, in order,
    -- with the byte as the second argument and 1 as the third. If the kernel answers none of the
    -- first `count` with a negative number, all of them are sent and `count` is returned; else the
    -- bytes are sent up to the first that it does answer so, and that answer is returned.
    pub write_sends :
        (buf : List ℕ) (s : S) (traps : List Trap)
        → count ≤ length buf
        → (n ret : ℕ) × (write (recording k) fd buf count (s, traps)
            ≡ some (ret, (after_bytes (take n buf) s, write_traps fd (take n buf) traps)))
          × Ends buf count s n ret
    unfolding write
    write_sends buf s traps h = sends buf count s traps h
