-- ===== src/Tests/Traps.antt =====
-- System calls.
use vsync.Prelude.{[], arith, codes, some, suc, take, zero, ℕ, ◌+◌, ◌∷◌, ◌≡◌}
use vsync.Posix.{Kernel, write}
use vsync.Posix.Calls.{perform, call_sem_init}
use vsync.Posix.Decode.{Trap, decode, recording, decode-perform}
use vsync.Posix.Write.{write_traps, write_sends, after_bytes, Ends}

-- The state counts the calls.
abbrev counting : Kernel ℕ
counting = record { ecall = λ num args s. (0, s + 1) }

decode-perform_example :
    (t : Trap) × (perform (recording counting) (call_sem_init 8 0 1) (5, [])
      ≡ some ((counting.ecall t.num t.args 5).0, ((counting.ecall t.num t.args 5).1, t ∷ [])))
    × (decode t.num t.args ≡ some (call_sem_init 8 0 1))
decode-perform_example = decode-perform counting (call_sem_init 8 0 1) 5 []

-- The state is the number of bytes that there is room for.
abbrev filling : Kernel ℕ
filling = record { ecall = λ num args room. elim room [ zero ↦ (0xFFFF_FFF5, 0) | suc n ↦ (1, n) ] }

write_sends_example :
    (n ret : ℕ) × (write (recording filling) 3 (codes "ok!") 2 (1, [])
      ≡ some (
        ret,
        (after_bytes filling 3 (take n (codes "ok!")) 1, write_traps 3 (take n (codes "ok!")) []),
      ))
    × Ends filling 3 2 (codes "ok!") 2 1 n ret
write_sends_example = write_sends filling 3 2 (codes "ok!") 1 [] (omega arith)
