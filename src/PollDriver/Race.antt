-- ===== src/PollDriver/Race.antt =====
-- What pollers get of the interrupts: alone, and two at a time.
use csel_workspace.Prelude.{
  ℕ, zero, suc, ◌+◌, ◌-◌, ◌^◌, ◌≤◌, ◌<◌, ◌≡◌, ◌≢◌, refl, Bool, true, false, List, [], ◌∷◌, ◌++◌,
  replicate, arith, ◌==◌, ◌&&◌, if◌then◌else◌, ap, ◌∙◌,
}
use csel_workspace.ButtonDriver.{atomic_inc}
use csel_workspace.PollDriver.{
  State, Step, interrupt, enters, leaves, put, gpio_isr, poll_enter, poll_leave, atomic_dec, step,
  run,
}

unfoldable pub interrupts : List Step → ℕ
interrupts [] = 0
interrupts (interrupt ∷ es) = suc (interrupts es)
interrupts (_ ∷ es) = interrupts es

-- The masks that tell a poller of an interrupt.
unfoldable pub ready : List ℕ → ℕ
ready [] = 0
ready (m ∷ ms) = (if m == 0 then 0 else 1) + ready ms

-- Poller `i` is the only one.
unfoldable pub only : ℕ → List Step → Bool
only i [] = true
only i (interrupt ∷ es) = only i es
only i (enters j ∷ es) = j == i && only i es
only i (leaves j ∷ es) = j == i && only i es

-- A poller that found the counter above 0 still finds it so.
abbrev pub Backed : ℕ → State → Type 0
Backed i s = s.found i ≡ true → 1 ≤ s.nb_of_interrupts

ready-append : (ms ns : List ℕ) → ready (ms ++ ns) ≡ ready ms + ready ns
unfolding ready
ready-append [] ns = omega arith
ready-append (m ∷ ms) ns = ground (arith, ready-append ms ns)

step_counted :
    (i : ℕ) (e : Step) (s : State)
    → only i (e ∷ []) ≡ true
    → s.nb_of_interrupts + interrupts (e ∷ []) < 2 ^ 32
    → Backed i s
    → ((step e s).0.nb_of_interrupts + ready (step e s).1
        ≡ s.nb_of_interrupts + interrupts (e ∷ []))
      × Backed i (step e s).0
unfolding step interrupts ready only gpio_isr poll_enter poll_leave atomic_inc atomic_dec
step_counted i interrupt s o b h = (ground (arith, b), λ f. ground (arith, b))
step_counted i (enters j) s o b h = (ground (arith, b), λ f. ground (arith, h, f))
step_counted i (leaves j) s o b h = (ground (arith, b, h), λ f. ground (arith, h, f))

only-cons :
    (i : ℕ) (e : Step) (es : List Step)
    → only i (e ∷ es) ≡ true
    → (only i (e ∷ []) ≡ true) × (only i es ≡ true)
unfolding only
only-cons i interrupt es o = (refl, o)
only-cons i (enters j) es o = (ground (arith, o), ground (arith, o))
only-cons i (leaves j) es o = (ground (arith, o), ground (arith, o))

interrupts-cons :
    (e : Step) (es : List Step) → interrupts (e ∷ es) ≡ interrupts (e ∷ []) + interrupts es
unfolding interrupts
interrupts-cons interrupt es = omega arith
interrupts-cons (enters j) es = omega arith
interrupts-cons (leaves j) es = omega arith

-- With one poller, which has not found more in the counter than is there, whatever the order of its
-- steps and the interrupts, and less than 2^32 of them with what is in the counter: the masks that
-- told it of an interrupt and what is left in the counter are together what was in the counter and
-- the interrupts.
pub one_poller :
    (i : ℕ) (es : List Step) (s : State)
    → only i es ≡ true
    → s.nb_of_interrupts + interrupts es < 2 ^ 32
    → Backed i s
    → (run es s).0.nb_of_interrupts + ready (run es s).1 ≡ s.nb_of_interrupts + interrupts es
unfolding run ready interrupts
one_poller i [] s o b h = refl
one_poller i (e ∷ es) s o b h =
    let (o', os) = only-cons i e es o in
    let n = interrupts-cons e es in
    let (counted, backed) = step_counted i e s o' (omega (arith, n, b)) h in
    let rest = one_poller i es (step e s).0 os (omega (arith, n, b, counted)) backed in
    omega (arith, n, counted, rest, ready-append (step e s).1 (run es (step e s).0).1)

-- `k` polls by poller `i`, one after the other.
abbrev pub polls : ℕ → ℕ → List Step
polls i zero = []
polls i (suc k) = enters i ∷ leaves i ∷ polls i k

abbrev pub entered : ℕ → State → State
entered i s = record s { found = put i true s.found }

abbrev pub taken : ℕ → State → State
taken i s = record { nb_of_interrupts = atomic_dec s.nb_of_interrupts; found = put i false s.found }

step-enters :
    (i : ℕ) (s : State)
    → s.found i ≡ false
    → s.nb_of_interrupts ≢ 0
    → step (enters i) s ≡ (entered i s, [])
unfolding step poll_enter
step-enters i s f h = rw f (ground (arith, h))

step-leaves : (i : ℕ) (s : State) → s.found i ≡ true → step (leaves i) s ≡ (taken i s, 65 ∷ [])
unfolding step poll_leave
step-leaves i s f = rw f refl

put_same : (i : ℕ) (b : Bool) (found : ℕ → Bool) → put i b found i ≡ b
put_same i b found = ground arith

put_other : (i j : ℕ) (b : Bool) (found : ℕ → Bool) → i ≢ j → put i b found j ≡ found j
put_other i j b found n = ground (arith, n)

run-poll :
    (i : ℕ) (es : List Step) (s : State)
    → s.found i ≡ false
    → s.nb_of_interrupts ≢ 0
    → let rest = run es (taken i (entered i s)) in
      run (enters i ∷ leaves i ∷ es) s ≡ (rest.0, 65 ∷ rest.1)
unfolding run
run-poll i es s f h =
    rw (step-enters i s f h, step-leaves i (entered i s) (put_same i true s.found)) refl

polls_ready :
    (i k : ℕ) (s : State)
    → s.found i ≡ false
    → s.nb_of_interrupts < 2 ^ 32
    → k ≤ s.nb_of_interrupts
    → ((run (polls i k) s).1 ≡ replicate k 65)
      × ((run (polls i k) s).0.nb_of_interrupts ≡ s.nb_of_interrupts - k)
unfolding run atomic_dec
polls_ready i zero s f b h = (refl, omega arith)
polls_ready i (suc k) s f b h =
    let one = run-poll i (polls i k) s f (λ e. omega (arith, e, h)) in
    let (masks, count) =
      polls_ready i k (taken i (entered i s)) (put_same i false (put i true s.found)) (omega arith)
        (omega (arith, h, b)) in
    (
      ap (λ r. r.1) one ∙ ap (λ ms. 65 ∷ ms) masks,
      ap (λ r. r.0.nb_of_interrupts) one ∙ count ∙ omega (arith, h, b),
    )

interrupts-polls : (i k : ℕ) → interrupts (polls i k) ≡ 0
unfolding interrupts
interrupts-polls i zero = refl
interrupts-polls i (suc k) = interrupts-polls i k

abbrev both_taken : ℕ → ℕ → State → State
both_taken i j s = taken j (taken i (entered j (entered i s)))

run-race :
    (i j : ℕ) (es : List Step) (s : State)
    → i ≢ j
    → s.nb_of_interrupts ≢ 0
    → s.found i ≡ false
    → s.found j ≡ false
    → let rest = run es (both_taken i j s) in
      run (enters i ∷ enters j ∷ leaves i ∷ leaves j ∷ es) s ≡ (rest.0, 65 ∷ 65 ∷ rest.1)
unfolding run
run-race i j es s n c f g =
    rw
      (
        step-enters i s f c,
        step-enters j (entered i s) (ground (arith, n, g)) c,
        step-leaves i (entered j (entered i s)) (ground (arith, n)),
        step-leaves j (taken i (entered j (entered i s))) (ground (arith, n)),
      )
      refl

-- With the counter at 1 and two pollers, one interrupt is enough for both to be told of one: each
-- tests the counter before the other takes from it. The counter then stands at -1 as 32 bits, and
-- each of the next polls, up to 2^32 - 1 of them and with no interrupt at all, is told of one too.
pub poll_race :
    (i j k : ℕ) (s : State)
    → i ≢ j
    → s.nb_of_interrupts ≡ 1
    → s.found i ≡ false
    → s.found j ≡ false
    → k < 2 ^ 32
    → let race = enters i ∷ enters j ∷ leaves i ∷ leaves j ∷ polls i k in
      (interrupts race ≡ 0)
      × ((run race s).1 ≡ replicate (suc (suc k)) 65)
      × ((run race s).0.nb_of_interrupts ≡ 2 ^ 32 - 1 - k)
unfolding atomic_dec interrupts
poll_race i j k s n c f g h =
    let ran = run-race i j (polls i k) s n (λ e. omega (arith, e, c)) f g in
    let (masks, count) =
      polls_ready i k (both_taken i j s) (ground (arith, n)) (omega (arith, c))
        (omega (arith, c, h)) in
    (
      interrupts-polls i k,
      ap (λ r. r.1) ran ∙ ap (λ ms. 65 ∷ 65 ∷ ms) masks,
      ap (λ r. r.0.nb_of_interrupts) ran ∙ count ∙ omega (arith, c, h),
    )
