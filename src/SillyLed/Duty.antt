-- ===== src/SillyLed/Duty.antt =====
-- How long the LED stays on and off.
use mathlib.Core.Path.{subst}
use csel_workspace.Prelude.{
  ℕ, zero, suc, ◌+◌, ◌-◌, ◌*◌, ◌/◌, ◌≤◌, ◌<◌, ◌≡◌, refl, ap, ap₂, sym, ◌∙◌, Option, none, some,
  List, [], ◌∷◌, arith, ◌⊎◌, inl, inr,
}
use csel_workspace.Prelude.Int.{pos, ◌-ℤ◌, ◌*ℤ◌, eq_of_parts, +ℤ_parts, -ℤ_parts, *ℤ_parts}
use csel_workspace.SillyLed.{
  div_trunc, phase_on, phase_off, Timespec, time_delta, State, round, loop, log,
}

-- A time in nanoseconds.
abbrev pub ns : Timespec → ℕ
ns t = t.tv_sec * 1000000000 + t.tv_nsec

time_delta-ns : (t1 t2 : Timespec) → ns t1 ≤ ns t2 → time_delta t1 t2 ≡ pos (ns t2 - ns t1)
unfolding time_delta
time_delta-ns t1 t2 h =
    let seconds = pos t2.tv_sec -ℤ pos t1.tv_sec in
    let rest = pos t2.tv_nsec -ℤ pos t1.tv_nsec in
    eq_of_parts (time_delta t1 t2) (pos (ns t2 - ns t1)) (
      omega (
        arith,
        h,
        -ℤ_parts (pos t2.tv_sec) (pos t1.tv_sec),
        -ℤ_parts (pos t2.tv_nsec) (pos t1.tv_nsec),
        *ℤ_parts seconds 1000000000,
        +ℤ_parts (seconds *ℤ pos 1000000000) rest,
      ))

on_lem : (ms : ℕ) → phase_on (pos (ms * 1000000)) ≡ pos (ms * 20000)
unfolding phase_on div_trunc
on_lem ms = eq_of_parts _ _ (omega (arith, *ℤ_parts (pos (ms * 1000000 / 100)) 2))

off_lem : (ms : ℕ) → phase_off (pos (ms * 1000000)) ≡ pos (ms * 980000)
unfolding phase_off
off_lem ms =
    ap (λ p. pos (ms * 1000000) -ℤ p) (on_lem ms)
    ∙ eq_of_parts _ _ (omega (arith, -ℤ_parts (pos (ms * 1000000)) (pos (ms * 20000))))

-- The two phases of a period of `ms` milliseconds: 2 percent and the rest, exactly.
pub phases :
    (ms : ℕ)
    → (phase_on (pos ms *ℤ pos 1000000) ≡ pos (ms * 20000))
      × (phase_off (pos ms *ℤ pos 1000000) ≡ pos (ms * 980000))
unfolding phase_on phase_off
phases ms = (on, off)
  where
    whole : pos ms *ℤ pos 1000000 ≡ pos (ms * 1000000)
    whole = eq_of_parts _ _ (omega (arith, *ℤ_parts (pos ms) 1000000))

    on : phase_on (pos ms *ℤ pos 1000000) ≡ pos (ms * 20000)
    on = ap phase_on whole ∙ on_lem ms

    off : phase_off (pos ms *ℤ pos 1000000) ≡ pos (ms * 980000)
    off = ap phase_off whole ∙ off_lem ms

-- The length of the phase with this `k`, and the bytes that end it.
abbrev pub phase : ℕ → ℕ → ℕ → ℕ
phase a b zero = a
phase a b (suc k) = b

abbrev pub ending : ℕ → List ℕ
ending zero = b'0' ∷ 0 ∷ []
ending (suc k) = b'1' ∷ 0 ∷ []

-- What a round at time `t2` did: nothing before the end of the phase, or the toggle.
abbrev Rounded : ℕ → ℕ → Timespec → State → State × Option (List ℕ) → Type 0
Rounded a b t2 s (s', written) =
    ((s' ≡ s) × (written ≡ none) × (ns t2 < ns s.t1 + phase a b s.k))
    ⊎ ((s' ≡ record { t1 = t2; k = 1 - s.k })
        × (written ≡ some (ending s.k))
        × (ns s.t1 + phase a b s.k ≤ ns t2))

round-Rounded :
    (a b : ℕ) (t1 t2 : Timespec) (k : ℕ)
    → k < 2
    → ns t1 ≤ ns t2
    → Rounded a b t2
        (record { t1 = t1; k = k })
        (round (pos a) (pos b) t2 (record { t1 = t1; k = k }))
unfolding round
round-Rounded a b t1 t2 zero h le = rw (time_delta-ns t1 t2 le) (ground arith)
round-Rounded a b t1 t2 (suc zero) h le = rw (time_delta-ns t1 t2 le) (ground arith)
round-Rounded a b t1 t2 (suc (suc k)) h le = absurd (omega arith)

-- The clock never goes back, and a round takes less than `g`.
abbrev pub Sampled : ℕ → Timespec → List Timespec → Type 0
Sampled g t [] = Unit
Sampled g t (t' ∷ times) = (ns t ≤ ns t') × (ns t' < ns t + g) × Sampled g t' times

-- The time of the last round, or of the start.
abbrev pub last_time : Timespec → List Timespec → Timespec
last_time t [] = t
last_time t (t' ∷ times) = last_time t' times

-- The writes end the phases in turn, each by less than `g` after its length; at the time `end` of
-- the last round the length of the phase that no write has ended is not over.
abbrev pub Blinks : ℕ → ℕ → ℕ → Timespec → Timespec → ℕ → List (Timespec × List ℕ) → Type 0
Blinks a b g end t1 k [] = ns end < ns t1 + phase a b k
Blinks a b g end t1 k ((t2, bytes) ∷ writes) =
    (bytes ≡ ending k)
    × (ns t1 + phase a b k ≤ ns t2)
    × (ns t2 < ns t1 + phase a b k + g)
    × Blinks a b g end t2 (1 - k) writes

phase_pos : (a b k : ℕ) → 0 < a → 0 < b → 0 < phase a b k
phase_pos a b zero ha hb = ha
phase_pos a b (suc k) ha hb = hb

loop-Blinks :
    (a b g : ℕ) (times : List Timespec) (prev t1 : Timespec) (k : ℕ)
    → 0 < a
    → 0 < b
    → k < 2
    → ns t1 ≤ ns prev
    → ns prev < ns t1 + phase a b k
    → Sampled g prev times
    → Blinks a b g
        (last_time prev times)
        t1
        k
        (loop (pos a) (pos b) times (record { t1 = t1; k = k })).1
unfolding loop
loop-Blinks a b g [] prev t1 k ha hb hk le lt s = lt
loop-Blinks a b g (t2 ∷ times) prev t1 k ha hb hk le lt (up, near, rest) =
    elim (round-Rounded a b t1 t2 k hk (omega (arith, le, up))) [
      | inl (e, w, before) ↦
          subst (λ ws. Blinks a b g (last_time t2 times) t1 k ws)
            (sym (ap₂ (λ s' written. log t2 written (loop (pos a) (pos b) times s').1) e w))
            (loop-Blinks a b g times t2 t1 k ha hb hk (omega (arith, le, up)) before rest)
      | inr (e, w, reached) ↦
          subst (λ ws. Blinks a b g (last_time t2 times) t1 k ws)
            (sym (ap₂ (λ s' written. log t2 written (loop (pos a) (pos b) times s').1) e w))
            (
              refl,
              reached,
              omega (arith, near, lt),
              loop-Blinks a b g times t2 t2 (1 - k) ha hb (omega arith) (omega arith)
                  (omega (arith, phase_pos a b (1 - k) ha hb)) rest,
            )
    ]

-- For a period of `ms` > 0 milliseconds, and a clock that never goes back and advances by less than
-- `g` nanoseconds from one round to the next: from the start, where the LED is on, its writes end
-- the two phases in turn, off after on and on after off. A phase with the LED on lasts at least 2
-- percent of the period, one with the LED off at least the other 98 percent, and each less than `g`
-- longer; the phase that is not ended at the last round has not yet lasted that long.
pub loop_duty :
    (ms g : ℕ) (t1 : Timespec) (times : List Timespec)
    → 0 < ms
    → Sampled g t1 times
    → let period = pos ms *ℤ pos 1000000 in
      Blinks
        (ms * 20000)
        (ms * 980000)
        g
        (last_time t1 times)
        t1
        0
        (loop (phase_on period) (phase_off period) times (record { t1 = t1; k = 0 })).1
loop_duty ms g t1 times h s =
    rw ((phases ms).0, (phases ms).1)
      (loop-Blinks (ms * 20000) (ms * 980000) g times t1 t1 0 (omega arith) (omega arith)
        (omega arith) (omega arith) (omega arith) s)
