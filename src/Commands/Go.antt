-- ===== src/Commands/Go.antt =====
-- cmd_go: the order of its effects.
use vsync.Prelude.{
  List, [], all, append_assoc, arith, codes, false, map, not, refl, some, suc, true, zero, ℕ, ◌++◌,
  ◌+◌, ◌<◌, ◌∙◌, ◌∷◌, ◌≡◌,
}
use vsync.Machine.{Io, IoLaws, Event, put, loaded, masked, jumped, Does, ◌>>=◌, ◌>>◌}
use vsync.Commands.{uart_base, test_bit}
use vsync.Commands.Load.{address_arg, drain_tx, cmd_go}
use vsync.Console.Output.{shell_puts-cstr, shell_put_hex-digits}
use vsync.Commands.Poke.{hex_text}

abbrev pub status_reg : ℕ
status_reg = uart_base + 0x08

-- The reads of the status register: `busy` while the FIFO is not empty, and then `done`.
abbrev pub drain_events : List ℕ → ℕ → List Event
drain_events busy done = map (loaded status_reg) busy ++ (loaded status_reg done ∷ [])

append_assoc6 :
    {A : Type 0} (l a b c d e f : List A)
    → (((((l ++ a) ++ b) ++ c) ++ d) ++ e) ++ f ≡ l ++ (a ++ (b ++ (c ++ (d ++ (e ++ f)))))
append_assoc6 l a b c d e f = simp append_assoc

module _ {S : Type 0} (io : Io S) (laws : IoLaws io) where
  -- What a read of the status register answers, and the state after it.
  abbrev pub status : S → ℕ
  status s = (laws.load_law s status_reg).0.0

  abbrev pub after : S → S
  after s = (laws.load_law s status_reg).2.0

  -- The FIFO is seen to be empty by the read behind `n` others.
  pub data Drains : ℕ → S → Type 0 where
    empty : (s : S) → test_bit (status s) 1 ≡ true → Drains 0 s
    busy : {n : ℕ} (s : S) → test_bit (status s) 1 ≡ false → Drains n (after s) → Drains (suc n) s

  -- What is read, and what input is left.
  pub record Drained : Type 0 where
    pub busy : List ℕ
    pub done : ℕ
    pub left : List ℕ

  drain_tx-Does :
      (polls : ℕ) {n : ℕ} {s : S}
      → Drains n s
      → n < polls
      → (r : Drained) × Does laws.input laws.log
          (drain_tx io polls)
          s
          tt
          (drain_events r.busy r.done)
          r.left
        × (all (λ w. not (test_bit w 1)) r.busy ≡ true)
        × (test_bit r.done 1 ≡ true)
  unfolding drain_tx
  drain_tx-Does zero d h = absurd (omega arith)
  drain_tx-Does (suc polls) (empty s e) h =
      let (r, below, d1) = laws.load_law s status_reg in
      let (s1, e1, i1, l1) = d1 in
      (
        record { busy = []; done = status s; left = laws.input s1 },
        (s1, rw (e1, e, ◌>>=◌), refl, l1),
        refl,
        e,
      )
  drain_tx-Does (suc polls) (busy s e d) h =
      let (r, below, d1) = laws.load_law s status_reg in
      let (s1, e1, i1, l1) = d1 in
      let (rest, d2, waiting, done) = drain_tx-Does polls d (omega arith) in
      let (s2, e2, i2, l2) = d2 in
      (
        record { busy = status s ∷ rest.busy; done = rest.done; left = rest.left },
        (s2, rw (e1, e, ◌>>=◌) e2, i2, l2 ∙ rw (l1, append_assoc)),
        ground (arith, e, waiting),
        done,
      )

  -- With an address that can be read, on a UART whose FIFO is seen to be empty within `polls` reads
  -- whenever they begin, `cmd_go` returns. It prints "Jumping to ", the address and " ...", then
  -- reads the status register until the first answer with the bit for an empty FIFO, then clears
  -- the interrupt enable bit, and then jumps to the address.
  pub cmd_go_jumps :
      (polls : ℕ) (args : List (List ℕ)) (addr : ℕ) (s : S)
      → address_arg args ≡ some addr
      → ((s' : S) → (n : ℕ) × Drains n s' × (n < polls))
      → (r : Drained) × Does laws.input laws.log
          (cmd_go io polls args)
          s
          tt
          (map put (codes "Jumping to ")
            ++ (map put (hex_text addr)
                ++ (map put (codes " ...\r\n")
                    ++ (drain_events r.busy r.done ++ (masked ∷ jumped addr ∷ [])))))
          r.left
        × (all (λ w. not (test_bit w 1)) r.busy ≡ true)
        × (test_bit r.done 1 ≡ true)
  unfolding cmd_go
  cmd_go_jumps polls args addr s ea drains =
      let text = shell_puts-cstr io laws in
      let (s1, e1, i1, l1) = text (codes "Jumping to ") s in
      let (s2, e2, i2, l2) = shell_put_hex-digits io laws addr s1 in
      let (s3, e3, i3, l3) = text (codes " ...\r\n") s2 in
      let (n, d, h) = drains s3 in
      let (r, run, waiting, done) = drain_tx-Does polls d h in
      let (s4, e4, i4, l4) = run in
      let (s5, e5, i5, l5) = laws.mask_law s4 in
      let (s6, e6, i6, l6) = laws.jump_law s5 addr in
      (
        r,
        (
          s6,
          rw (ea, e1, e2, e3, e4, e5, e6, cmd_go, ◌>>◌),
          i6 ∙ (i5 ∙ i4),
          l6
              ∙ rw (l5, l4, l3, l2, l1)
                  (append_assoc6 (laws.log s) _ _ _ _ (masked ∷ []) (jumped addr ∷ [])),
        ),
        waiting,
        done,
      )
