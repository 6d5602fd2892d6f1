-- ===== src/Worker/Timers.antt =====
-- The two timers of `run`.
use lctk.Prelude.{ℕ, ◌+◌, ◌≡◌, ◌≢◌, true, false, none, some, List, [], ◌∷◌, All, pos_part, arith}
use lctk.Files.{Faults}
use lctk.Settings.{settle_ceiling}
use lctk.Worker.{Worker, Loop, Input, quit, event, gap, run_step, run_start}

-- The timers run together or not at all, and the flag says which.
pub record IsTimed (l : Loop) : Type 0 where
  pub both : l.ceiling_armed ≡ true → (l.ceiling_at ≢ none) × (l.debounce_at ≢ none)
  pub neither : l.ceiling_armed ≡ false → (l.ceiling_at ≡ none) × (l.debounce_at ≡ none)

pub run_start-IsTimed : (f : Faults) (now : ℕ) (w : Worker) → IsTimed (run_start f now w).0
unfolding run_start
run_start-IsTimed f now w = ground arith

-- Every step of the loop keeps this: while the ceiling is armed both timers run, and while it is
-- not neither does.
pub run_step-IsTimed :
    (i : Input) (f : Faults) (now : ℕ) (l : Loop) → IsTimed l → IsTimed (run_step i f now l).0
unfolding run_step
run_step-IsTimed quit f now l t = ground arith
run_step-IsTimed _ f now l t = ground arith

-- An event or a gap.
abbrev pub IsChange : Input → Type 0
IsChange (event e) = Unit {0}
IsChange (gap reason detail at) = Unit {0}
IsChange _ = ⊥

pub run_changes : List (Input × Faults × ℕ) → Loop → Loop
run_changes [] l = l
run_changes ((i, f, now) ∷ rest) l = run_changes rest (run_step i f now l).0

change-ceiling :
    (i : Input) (f : Faults) (now c : ℕ) (l : Loop)
    → IsChange i
    → l.ceiling_armed ≡ true
    → l.ceiling_at ≡ some c
    → ((run_step i f now l).0.ceiling_at ≡ some c) × ((run_step i f now l).0.ceiling_armed ≡ true)
unfolding run_step
change-ceiling (event e) f now c l h a at = ground arith
change-ceiling (gap reason detail when) f now c l h a at = ground arith
change-ceiling _ f now c l h a at = absurd h

run_changes-kept :
    (steps : List (Input × Faults × ℕ)) (l : Loop) (c : ℕ)
    → All (λ s. IsChange s.0) steps
    → l.ceiling_armed ≡ true
    → l.ceiling_at ≡ some c
    → (run_changes steps l).ceiling_at ≡ some c
unfolding run_changes
run_changes-kept [] l c h a e = e
run_changes-kept ((i, f, now) ∷ rest) l c h a e =
    let (e', a') = change-ceiling i f now c l h.0 a e in
    run_changes-kept rest (run_step i f now l).0 c h.1 a' e'

change-arms :
    (i : Input) (f : Faults) (now : ℕ) (l : Loop)
    → IsChange i
    → l.ceiling_armed ≡ false
    → ((run_step i f now l).0.ceiling_at ≡ some (now + pos_part (settle_ceiling l.worker.watch)))
      × ((run_step i f now l).0.ceiling_armed ≡ true)
unfolding run_step
change-arms (event e) f now l h a = ground arith
change-arms (gap reason detail when) f now l h a = ground arith
change-arms _ f now l h a = absurd h

-- From a loop whose ceiling is not armed, a first event or gap at time `now`, followed by any
-- events and gaps, leaves the ceiling timer one settle ceiling after `now`.
pub run_changes-ceiling :
    (i : Input) (f : Faults) (now : ℕ) (steps : List (Input × Faults × ℕ)) (l : Loop)
    → l.ceiling_armed ≡ false
    → IsChange i
    → All (λ s. IsChange s.0) steps
    → (run_changes ((i, f, now) ∷ steps) l).ceiling_at
      ≡ some (now + pos_part (settle_ceiling l.worker.watch))
unfolding run_changes
run_changes-ceiling i f now steps l a h hs =
    let (at, armed) = change-arms i f now l h a in
    run_changes-kept steps (run_step i f now l).0 _ hs armed at
