-- ===== src/Blink/Rounds.antt =====
-- What gpio_blink.c writes to the GPIO device.
use vsync.Prelude.{
  Bool-cases, List, Option, [], ap, arith, bit_xor, if◌then◌else◌, inl, inr, none, refl, some, suc,
  sym, zero, ℕ, ◌%◌, ◌+◌, ◌∷◌, ◌≡◌, ◌⊎◌,
}
use vsync.Machine.{M}
use vsync.Locals.{Locals, minus_one}
use vsync.Posix.{Kernel, is_negative}
use vsync.Posix.Decode.{Trap, recording}
use vsync.Multitask.Traces.{push, with_traps}
use vsync.Blink.{led_bit, start_blinking, blink, main}

module _ (fd delay : ℕ) where
  abbrev pub open_trap : Trap
  open_trap = record { num = 0x50; args = 2 ∷ 0 ∷ [] }

  abbrev pub direction_trap : Trap
  direction_trap = record { num = 0x54; args = fd ∷ 0x08 ∷ led_bit ∷ [] }

  abbrev pub output_trap : ℕ → Trap
  output_trap level = record { num = 0x54; args = fd ∷ 0x00 ∷ level ∷ [] }

  abbrev pub sleep_trap : Trap
  sleep_trap = record { num = 0x42; args = delay ∷ 0 ∷ [] }

  -- Rounds number i, i + 1, ...: the LED is on in the even ones.
  unfoldable pub flashes : ℕ → ℕ → List Trap
  flashes i zero = []
  flashes i (suc n) = output_trap ((i + 1) % 2) ∷ sleep_trap ∷ flashes (i + 1) n

parity : (i : ℕ) → (i % 2 ≡ 0) ⊎ (i % 2 ≡ 1)
parity i = omega arith

toggle : (i : ℕ) → bit_xor (i % 2) 1 ≡ (i + 1) % 2
toggle i = elim (parity i) [ inl e ↦ rw e (omega arith) | inr e ↦ rw e (omega arith) ]

module _ {S : Type 0} (k : Kernel S) (mem : Locals S) (delay : ℕ) where
  -- A run that comes to an end with a result, after the calls ts.
  abbrev pub Ends : {A : Type 0} → M (S × List Trap) A → S → List Trap → A → List Trap → Type 0
  Ends run s traps a ts = (s' : S) × (run (s, traps) ≡ some (a, (s', push ts traps)))

  blink-Ends :
      (fd n i : ℕ) (s : S) (traps : List Trap)
      → Ends
          (blink (recording k) (with_traps mem) delay fd n (i % 2))
          s
          traps
          ((i + n) % 2)
          (flashes fd delay i n)
  unfolding blink flashes push
  blink-Ends fd zero i s traps = (s, ap (λ x. some (x, (s, traps))) (omega arith))
  blink-Ends fd (suc n) i s traps =
      let level = (i + 1) % 2 in
      let s1 = (k.ecall 0x54 (fd ∷ 0x00 ∷ level ∷ []) s).1 in
      let s2 = (k.ecall 0x42 (delay ∷ 0 ∷ []) s1).1 in
      let t2 = sleep_trap fd delay ∷ output_trap fd delay level ∷ traps in
      let (s3, e3) = blink-Ends fd n (i + 1) s2 t2 in
      let count : (i + 1 + n) % 2 ≡ (i + suc n) % 2 = omega arith in
      (s3, rw (toggle i, sym count) e3)

  start_blinking-Ends :
      (fd rounds : ℕ) (s : S) (traps : List Trap)
      → Ends
          (start_blinking (recording k) (with_traps mem) delay fd rounds)
          s
          traps
          (rounds % 2)
          (direction_trap fd delay ∷ flashes fd delay 0 rounds)
  unfolding start_blinking push
  start_blinking-Ends fd rounds s traps =
      let s1 = (k.ecall 0x54 (fd ∷ 0x08 ∷ led_bit ∷ []) s).1 in
      let s2 = mem.set_timespec delay (record { tv_sec = 0; tv_nsec = 500_000_000 }) s1 in
      let (s3, e3) = blink-Ends fd rounds 0 s2 (direction_trap fd delay ∷ traps) in
      let count : (0 + rounds) % 2 ≡ rounds % 2 = omega arith in (s3, rw (sym count) e3)

  -- What main returns, if it does, and the calls that it makes in the first rounds.
  unfoldable pub main_outcome : ℕ → ℕ → Option ℕ × List Trap
  main_outcome fd rounds =
      if is_negative fd
      then (some minus_one, open_trap fd delay ∷ [])
      else (none, open_trap fd delay ∷ direction_trap fd delay ∷ flashes fd delay 0 rounds)

  -- main, for any number of rounds of its loop and any answers of the kernel: where open fails it
  -- returns -1 and does nothing else; else it sets the LED's pin to output, and writes 1, 0, 1, 0,
  -- ... with one sleep after each.
  pub main-Blinks :
      (fd rounds : ℕ) (s : S) (traps : List Trap)
      → (k.ecall 0x50 (2 ∷ 0 ∷ []) s).0 ≡ fd
      → let (ret, ts) = main_outcome fd rounds in
        Ends (main (recording k) (with_traps mem) delay rounds) s traps ret ts
  unfolding main main_outcome push
  main-Blinks fd rounds s traps e =
      let s1 = (k.ecall 0x50 (2 ∷ 0 ∷ []) s).1 in
      let opened : ((recording k).ecall 0x50 (2 ∷ 0 ∷ []) (s, traps)).0 ≡ fd = e in
      let (s2, e2) = start_blinking-Ends fd rounds s1 (open_trap fd delay ∷ traps) in
      let loops = λ (o : Option (ℕ × (S × List Trap))).
        elim o as (λ _. Option (Option ℕ × (S × List Trap))) [
          | none ↦ none
          | some x ↦ some (none, x.1)
        ] in
      elim (Bool-cases (is_negative fd)) [
        | inl neg ↦ rw neg (s1, rw (opened, neg) refl)
        | inr pos ↦ rw pos (s2, rw (opened, pos) (ap loops e2))
      ]
