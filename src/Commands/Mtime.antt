-- ===== src/Commands/Mtime.antt =====
-- cmd_uptime: the reading of the timer, and what is shown of it.
use vsync.Prelude.{
  List, [], all, ap, append_assoc, arith, false, map, not, refl, suc, true, zero, ℕ, ◌%◌, ◌*◌, ◌++◌,
  ◌+◌, ◌/◌, ◌<◌, ◌==◌, ◌^◌, ◌∙◌, ◌∷◌, ◌≡◌,
}
use vsync.Machine.{Io, IoLaws, Event, put, loaded, Does, ◌>>=◌}
use vsync.Commands.{clint_base}
use vsync.Commands.System.{read_mtime, cmd_uptime}
use vsync.Commands.Uptime.{uptime_text, show_uptime-text}

abbrev pub mtime_hi : ℕ
mtime_hi = clint_base + 0xBFFC

abbrev pub mtime_lo : ℕ
mtime_lo = clint_base + 0xBFF8

-- One round: the high word, the low word, and the high word again.
pub record Round : Type 0 where
  pub hi1 : ℕ
  pub lo : ℕ
  pub hi2 : ℕ

abbrev pub round_events : Round → List Event
round_events r = loaded mtime_hi r.hi1 ∷ loaded mtime_lo r.lo ∷ loaded mtime_hi r.hi2 ∷ []

-- The rounds in which the high word changed, and the last one, in which it did not.
abbrev pub mtime_events : List Round → ℕ → ℕ → List Event
mtime_events [] hi lo = round_events (record { hi1 = hi; lo = lo; hi2 = hi })
mtime_events (r ∷ rounds) hi lo = round_events r ++ mtime_events rounds hi lo

append_three :
    (es : List Event) (a b c : Event)
    → ((es ++ (a ∷ [])) ++ (b ∷ [])) ++ (c ∷ []) ≡ es ++ (a ∷ b ∷ c ∷ [])
append_three es a b c =
    append_assoc (es ++ (a ∷ [])) (b ∷ []) (c ∷ []) ∙ append_assoc es (a ∷ []) (b ∷ c ∷ [])

module _ {S : Type 0} (io : Io S) (laws : IoLaws io) where
  -- What a read answers, and the state after it.
  abbrev value : ℕ → S → ℕ
  value a s = (laws.load_law s a).0.0

  abbrev after : ℕ → S → S
  after a s = (laws.load_law s a).2.0

  -- What a round from `s` reads, and the state after it.
  abbrev pub round_at : S → Round
  round_at s = record {
    hi1 = value mtime_hi s;
    lo = value mtime_lo (after mtime_hi s);
    hi2 = value mtime_hi (after mtime_lo (after mtime_hi s));
  }

  abbrev pub behind : S → S
  behind s = after mtime_hi (after mtime_lo (after mtime_hi s))

  -- The high word changes in `n` rounds, and not in the next one.
  pub data Settles : ℕ → S → Type 0 where
    stable : (s : S) → ((round_at s).hi1 == (round_at s).hi2) ≡ true → Settles 0 s
    carry :
        {n : ℕ} (s : S)
        → ((round_at s).hi1 == (round_at s).hi2) ≡ false
        → Settles n (behind s)
        → Settles (suc n) s

  pub record Reading : Type 0 where
    pub rounds : List Round
    pub hi : ℕ
    pub lo : ℕ
    pub left : List ℕ

  abbrev pub IsReading : ℕ → S → Reading → Type 0
  IsReading tries s r =
      Does laws.input laws.log (read_mtime io tries) s (r.hi, r.lo)
        (mtime_events r.rounds r.hi r.lo) r.left
      × (all (λ t. not (t.hi1 == t.hi2)) r.rounds ≡ true)
      × (r.hi < 2 ^ 32)
      × (r.lo < 2 ^ 32)

  read_mtime-Does :
      (tries : ℕ) {n : ℕ} {s : S} → Settles n s → n < tries → (r : Reading) × IsReading tries s r
  unfolding read_mtime
  read_mtime-Does zero d h = absurd (omega arith)
  read_mtime-Does (suc tries) (stable s e) h =
      let (r1, below1, d1) = laws.load_law s mtime_hi in
      let (s1, e1, i1, l1) = d1 in
      let (r2, below2, d2) = laws.load_law s1 mtime_lo in
      let (s2, e2, i2, l2) = d2 in
      let (r3, below3, d3) = laws.load_law s2 mtime_hi in
      let (s3, e3, i3, l3) = d3 in
      let same : r1.0 ≡ r3.0 = ground (arith, e) in
      (
        record { rounds = []; hi = r1.0; lo = r2.0; left = laws.input s3 },
        (
          (
            s3,
            rw (e1, e2, e3, e, ◌>>=◌),
            refl,
            l3 ∙ rw (l2, l1, ← same) (append_three (laws.log s) _ _ _),
          ),
          refl,
          below1,
          below2,
        ),
      )
  read_mtime-Does (suc tries) (carry s e d) h =
      let (r1, below1, d1) = laws.load_law s mtime_hi in
      let (s1, e1, i1, l1) = d1 in
      let (r2, below2, d2) = laws.load_law s1 mtime_lo in
      let (s2, e2, i2, l2) = d2 in
      let (r3, below3, d3) = laws.load_law s2 mtime_hi in
      let (s3, e3, i3, l3) = d3 in
      let (r, reading) = read_mtime-Does tries d (omega arith) in
      let (run, changed, below, below') = reading in
      let (s4, e4, i4, l4) = run in
      let later = mtime_events r.rounds r.hi r.lo in
      (
        record { rounds = round_at s ∷ r.rounds; hi = r.hi; lo = r.lo; left = r.left },
        (
          (
            s4,
            rw (e1, e2, e3, e, ◌>>=◌) e4,
            i4,
            l4
                ∙ (ap (λ (es : List Event). es ++ later)
                      (l3 ∙ rw (l2, l1) (append_three (laws.log s) _ _ _))
                    ∙ append_assoc (laws.log s) (round_events (round_at s)) later),
          ),
          ground (arith, e, changed),
          below,
          below',
        ),
      )

  -- With more tries than there are rounds in which the high word of mtime changes, `cmd_uptime`
  -- returns. It reads high, low and high word again until both high words are equal, and shows the
  -- time that this last round read.
  pub cmd_uptime_shows :
      (tries : ℕ) {n : ℕ} (s : S)
      → Settles n s
      → n < tries
      → (r : Reading) × Does laws.input laws.log
          (cmd_uptime io tries)
          s
          tt
          (mtime_events r.rounds r.hi r.lo
            ++ map put (uptime_text ((r.hi * 2 ^ 32 + r.lo) / 25_000_000 % 2 ^ 32) r.hi r.lo))
          r.left
        × (all (λ t. not (t.hi1 == t.hi2)) r.rounds ≡ true)
  unfolding cmd_uptime
  cmd_uptime_shows tries s d h =
      let (r, reading) = read_mtime-Does tries d h in
      let (run, changed, below, below') = reading in
      let (s1, e1, i1, l1) = run in
      let (s2, e2, i2, l2) = show_uptime-text io laws r.hi r.lo below below' s1 in
      (
        r,
        (
          s2,
          rw (e1, cmd_uptime, ◌>>=◌) e2,
          i2 ∙ i1,
          l2 ∙ rw (l1) (append_assoc (laws.log s) (mtime_events r.rounds r.hi r.lo) _),
        ),
        changed,
      )
