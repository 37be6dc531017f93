-- ===== src/Tests/Handlers.antt =====
-- Handlers on concrete arguments.
use vsync.Prelude.{
  List, [], all, arith, codes, length, map, not, refl, true, ℕ, ◌%◌, ◌*◌, ◌++◌, ◌+◌, ◌/◌, ◌==◌, ◌^◌,
  ◌∷◌, ◌≡◌,
}
use vsync.Machine.{Does, put, masked, jumped}
use vsync.Commands.Load.{cmd_go, address_arg}
use vsync.Commands.System.{cmd_uptime}
use vsync.Commands.Uptime.{uptime_text}
use vsync.Commands.Mtime.{Reading, stable, mtime_events, cmd_uptime_shows}
use vsync.Commands.Go.{Drained, empty, drain_events, cmd_go_jumps}
use vsync.Hex.{hex_to_uint32}
use vsync.Decimal.{dec_to_uint32, dec_shift}
use vsync.Commands.{word_align, test_bit}
use vsync.Commands.Memory.{cmd_peek, peek_count, clamp_count}
use vsync.Commands.Poke.{hex_text}
use vsync.Commands.Peek.{peek_events, cmd_peek_reads}
use vsync.Tests.Bench.{bench_io, bench_laws, typing}

abbrev peek_args : List (List ℕ)
peek_args = codes "peek" ∷ codes "1000" ∷ codes "3" ∷ []

cmd_peek_reads_example :
    (vals : List ℕ) × (length vals ≡ clamp_count 3)
    × ((rest : List ℕ) × Does bench_laws.input bench_laws.log
          (cmd_peek bench_io peek_args)
          (typing [])
          tt
          (peek_events (word_align 0x1000) 0 vals)
          rest)
unfolding hex_to_uint32 peek_count dec_to_uint32 dec_shift
cmd_peek_reads_example =
    cmd_peek_reads bench_io bench_laws peek_args 0x1000 3 (typing []) (omega arith) refl refl

-- Every status read answers 7, in which the bit for an empty FIFO is set.
cmd_go_jumps_example :
    (r : Drained bench_io bench_laws) × Does bench_laws.input bench_laws.log
      (cmd_go bench_io 1 (codes "go" ∷ codes "200" ∷ []))
      (typing [])
      tt
      (map put (codes "Jumping to ")
        ++ (map put (hex_text 0x200)
            ++ (map put (codes " ...\r\n")
                ++ (drain_events r.busy r.done ++ (masked ∷ jumped 0x200 ∷ [])))))
      r.left
    × (all (λ w. not (test_bit w 1)) r.busy ≡ true)
    × (test_bit r.done 1 ≡ true)
unfolding hex_to_uint32 address_arg
cmd_go_jumps_example =
    cmd_go_jumps bench_io bench_laws 1 (codes "go" ∷ codes "200" ∷ []) 0x200 (typing []) refl
      λ s'. (0, empty s' refl, omega arith)

cmd_uptime_shows_example :
    (r : Reading bench_io bench_laws) × Does bench_laws.input bench_laws.log
      (cmd_uptime bench_io 1)
      (typing [])
      tt
      (mtime_events r.rounds r.hi r.lo
        ++ map put (uptime_text ((r.hi * 2 ^ 32 + r.lo) / 25_000_000 % 2 ^ 32) r.hi r.lo))
      r.left
    × (all (λ t. not (t.hi1 == t.hi2)) r.rounds ≡ true)
cmd_uptime_shows_example =
    cmd_uptime_shows bench_io bench_laws 1 (typing []) (stable (typing []) refl) (omega arith)

abbrev three : ℕ
three = 3
