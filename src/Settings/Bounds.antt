-- ===== src/Settings/Bounds.antt =====
-- The durations that the watcher uses stay in range, whatever a file or a manifest says.
use lctk.Prelude.{
  ℕ, ◌*◌, ◌≤◌, ◌≡◌, ◌≢◌, refl, ◌⊎◌, inr, true, text_eq, text_eq_iff, ℤ, pos, negsuc, zero, suc,
  ◌≤ℤ◌, mul_i64, mul_i64-small, arith, none, [],
}
use lctk.Settings.{
  Watch, File, debounce, settle_ceiling, idle_stop, clamp, min_debounce, max_debounce,
  max_settle_ceiling, min_settle_ceiling, with_project_debounce, load_from, defaults, is_mode,
  or_default, mode_normal, absent, document, millisecond,
}

clamp_bounds :
    (v low high : ℤ) → low ≤ℤ high → (low ≤ℤ clamp v low high) × (clamp v low high ≤ℤ high)
unfolding clamp
clamp_bounds v low high h = ground arith

debounce_bounds : (w : Watch) → (min_debounce ≤ℤ debounce w) × (debounce w ≤ℤ max_debounce)
unfolding debounce
debounce_bounds w =
    clamp_bounds (mul_i64 w.debounce_ms millisecond) min_debounce max_debounce (omega arith)

settle_ceiling_bounds :
    (w : Watch)
    → (min_settle_ceiling ≤ℤ settle_ceiling w)
      × (settle_ceiling w ≤ℤ max_settle_ceiling)
      × (debounce w ≤ℤ settle_ceiling w)
unfolding settle_ceiling
settle_ceiling_bounds w =
    let c = mul_i64 w.max_debounce_ms millisecond in
    ground
      (arith, debounce_bounds w, clamp_bounds c min_settle_ceiling max_settle_ceiling (omega arith))

-- Whatever the settings say, also where the multiplication by a unit wraps round, the debounce
-- lies between 200 ms and 60 s, the ceiling between 1 s and 10 minutes and not below the
-- debounce, and the idle limit between 30 s and a day.
pub timers_bounds :
    (w : Watch)
    → ((min_debounce ≤ℤ debounce w) × (debounce w ≤ℤ max_debounce))
      × ((min_settle_ceiling ≤ℤ settle_ceiling w)
          × (settle_ceiling w ≤ℤ max_settle_ceiling)
          × (debounce w ≤ℤ settle_ceiling w))
      × ((pos 30000000000 ≤ℤ idle_stop w) × (idle_stop w ≤ℤ pos 86400000000000))
unfolding idle_stop
timers_bounds w = (
  debounce_bounds w,
  settle_ceiling_bounds w,
  clamp_bounds (mul_i64 w.idle_stop_seconds 1000000000) _ _ (omega arith),
)

clamp_inside : (v low high : ℤ) → low ≤ℤ v → v ≤ℤ high → clamp v low high ≡ v
unfolding clamp
clamp_inside v low high h k = ground arith

clamp_ms :
    (ms : ℕ)
    → 200 ≤ ms
    → ms ≤ 60000
    → clamp (mul_i64 (pos ms) millisecond) min_debounce max_debounce ≡ pos (ms * millisecond)
clamp_ms ms low high =
    rw (mul_i64-small ms millisecond (omega arith)) (clamp_inside _ _ _ (omega arith) (omega arith))

with_project_debounce_set :
    (w : Watch) (ms : ℕ)
    → 200 ≤ ms
    → ms ≤ 60000
    → with_project_debounce w (pos ms) ≡ record w { debounce_ms = pos ms }
unfolding with_project_debounce
with_project_debounce_set w ms low high = rw (clamp_ms ms low high) (ground arith)

-- A project's debounce between 200 and 60000 milliseconds is used as it is given, and leaves the
-- idle limit.
pub debounce-with_project_debounce :
    (w : Watch) (ms : ℕ)
    → 200 ≤ ms
    → ms ≤ 60000
    → (debounce (with_project_debounce w (pos ms)) ≡ pos (ms * millisecond))
      × (idle_stop (with_project_debounce w (pos ms)) ≡ idle_stop w)
unfolding debounce idle_stop
debounce-with_project_debounce w ms low high =
    rw (with_project_debounce_set w ms low high) (clamp_ms ms low high, refl)

normal_is_mode : is_mode mode_normal ≡ true
unfolding is_mode text_eq
normal_is_mode = refl

normal-ne-empty : mode_normal ≢ []
normal-ne-empty e = cc

or_default-ne : (v : ℤ) (n : ℕ) → or_default v (pos (suc n)) ≢ pos 0
or_default-ne (pos zero) n e = cc
or_default-ne (pos (suc m)) n e = ground arith
or_default-ne (negsuc m) n e = cc

-- Settings that load without an error have a mode that is known and not empty, a memory limit
-- that is not negative, and no timer or count of 0; with an error the defaults are returned.
pub load_from_lem :
    (f : File)
    → (((load_from f).1 ≡ none)
        × (is_mode (load_from f).0.resources.mode ≡ true)
        × ((load_from f).0.resources.mode ≢ [])
        × (pos 0 ≤ℤ (load_from f).0.resources.memory_limit_mb)
        × ((load_from f).0.watch.debounce_ms ≢ pos 0)
        × ((load_from f).0.watch.max_debounce_ms ≢ pos 0)
        × ((load_from f).0.watch.max_watched_directories ≢ pos 0)
        × ((load_from f).0.watch.idle_stop_seconds ≢ pos 0))
      ⊎ (((load_from f).1 ≢ none) × ((load_from f).0 ≡ defaults))
unfolding load_from
load_from_lem absent = ground (arith, normal_is_mode, normal-ne-empty)
load_from_lem (document d) = ground (
  arith,
  normal_is_mode,
  normal-ne-empty,
  text_eq_iff d.resources.mode [],
  or_default-ne d.watch.debounce_ms 2999,
  or_default-ne d.watch.max_debounce_ms 29999,
  or_default-ne d.watch.max_watched_directories 19999,
  or_default-ne d.watch.idle_stop_seconds 899,
)
load_from_lem _ = inr (ground arith, refl)
