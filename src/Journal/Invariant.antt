-- ===== src/Journal/Invariant.antt =====
-- What holds of a journal between two of its methods.
use lctk.Prelude.{
  ℕ, ◌+◌, ◌^◌, ◌≤◌, ◌<◌, ◌≡◌, refl, true, Bool-cases, List, [], ◌∷◌, All, All-mono, length, arith,
  inl, inr, ◌⊎◌, ◌∙◌, subst, Text,
}
use lctk.Journal.{
  Journal, Entry, next_u64, entry_of, accept, is_skipped, Event, Mark, put, delete_through, observe,
  observe_all, bound_pending, record_events, mark_gap, advance, commit, reconciled, snapshot,
}
use lctk.Journal.Pending.{
  Within, Distinct, Increasing, All-put, All-delete, Distinct-put, Distinct-delete,
  length-delete-le, delete_through-above, in_order-All, in_order-Increasing,
}

-- The entries lie between the checkpoint and the last sequence number, and none shares a path or a
-- number with another.
pub record IsSound (j : Journal) : Type 0 where
  pub within : All (Within j.meta.checkpoint j.meta.sequence) j.pending
  pub distinct : Distinct j.pending
  pub behind : j.meta.checkpoint ≤ j.meta.sequence

-- A sound journal whose list is within its bound.
pub record IsValid (j : Journal) : Type 0 where
  pub sound : IsSound j
  pub fits : length j.pending ≤ j.max_pending

-- The counter stays inside a uint64 for `k` more steps.
abbrev pub Room : ℕ → ℕ → Type 0
Room k n = n + k < 2 ^ 64

put-IsSound :
    (e : Entry) (low high next : ℕ) (es : List Entry)
    → e.seq ≡ next
    → next ≡ high + 1
    → low ≤ high
    → All (Within low high) es
    → Distinct es
    → All (Within low next) (put e es) × Distinct (put e es)
put-IsSound e low high next es s n b w d = (
  All-put (Within low next) e es (omega arith)
      (All-mono (Within low high) (Within low next) es (λ f v. omega arith) w),
  Distinct-put e es (All-mono (Within low high) (λ f. f.seq < e.seq) es (λ f v. omega arith) w) d,
)

accept-IsSound :
    (e : Event) (j : Journal) → Room 1 j.meta.sequence → IsSound j → IsSound (accept e j)
unfolding accept entry_of
accept-IsSound e j r v =
    let seq = next_u64 j.meta.sequence in
    let (w, d) =
      put-IsSound (entry_of seq e) j.meta.checkpoint j.meta.sequence seq j.pending refl
        (omega arith) v.behind v.within v.distinct in
    record { within = w; distinct = d; behind = omega arith }

pub observe-IsSound :
    (e : Event) (j : Journal) → Room 1 j.meta.sequence → IsSound j → IsSound (observe e j)
unfolding observe
observe-IsSound e j r v = elim (Bool-cases (is_skipped e)) [
  | inl skip ↦ rw skip v
  | inr new ↦ rw new (accept-IsSound e j r v)
]

-- How far a step takes the counters, and what it leaves.
pub record Grows (k : ℕ) (j j' : Journal) : Type 0 where
  pub sequence_up : j.meta.sequence ≤ j'.meta.sequence
  pub sequence_cap : j'.meta.sequence ≤ j.meta.sequence + k
  pub gap_seq_up : j.meta.gap_seq ≤ j'.meta.gap_seq
  pub gap_seq_cap : j'.meta.gap_seq ≤ j.meta.gap_seq + k
  pub checkpoint_kept : j'.meta.checkpoint ≡ j.meta.checkpoint
  pub bound_kept : j'.max_pending ≡ j.max_pending

pub Grows-trans : (a b : ℕ) (i j k : Journal) → Grows a i j → Grows b j k → Grows (a + b) i k
Grows-trans a b i j k g h = ground arith

pub observe-Grows : (e : Event) (j : Journal) → Room 1 j.meta.sequence → Grows 1 j (observe e j)
unfolding observe
observe-Grows e j r = ground arith

pub observe_all-Grows :
    (es : List Event) (j : Journal)
    → Room (length es) j.meta.sequence
    → Grows (length es) j (observe_all es j)
unfolding observe_all
observe_all-Grows [] j r = ground arith
observe_all-Grows (e ∷ es) j r =
    let g = observe-Grows e j (omega arith) in
    subst (λ n. Grows n j (observe_all es (observe e j))) (omega arith)
      (Grows-trans 1 (length es) j (observe e j) (observe_all es (observe e j)) g
        (observe_all-Grows es (observe e j) (omega arith)))

pub observe_all-IsSound :
    (es : List Event) (j : Journal)
    → Room (length es) j.meta.sequence
    → IsSound j
    → IsSound (observe_all es j)
unfolding observe_all
observe_all-IsSound [] j r v = v
observe_all-IsSound (e ∷ es) j r v =
    let g = observe-Grows e j (omega arith) in
    observe_all-IsSound es (observe e j) (omega arith) (observe-IsSound e j (omega arith) v)

pub mark_gap-Grows :
    (reason detail : Text) (at now : ℕ) (j : Journal)
    → Room 1 j.meta.gap_seq
    → Grows 1 j (mark_gap reason detail at now j)
unfolding mark_gap
mark_gap-Grows reason detail at now j r = ground arith

pub mark_gap-IsValid :
    (reason detail : Text) (at now : ℕ) (j : Journal)
    → IsValid j
    → IsValid (mark_gap reason detail at now j)
unfolding mark_gap
mark_gap-IsValid reason detail at now j v = ground arith

bound_pending-IsValid : (now : ℕ) (j : Journal) → IsSound j → IsValid (bound_pending now j)
unfolding bound_pending
bound_pending-IsValid now j v = ground arith

bound_pending-Grows :
    (now : ℕ) (j : Journal) → Room 1 j.meta.gap_seq → Grows 1 j (bound_pending now j)
unfolding bound_pending
bound_pending-Grows now j r = ground arith

pub record_events-IsValid :
    (es : List Event) (now : ℕ) (j : Journal)
    → Room (length es) j.meta.sequence
    → IsValid j
    → IsValid (record_events es now j)
unfolding record_events
record_events-IsValid [] now j r v = v
record_events-IsValid (e ∷ es) now j r v =
    let s = observe_all-IsSound (e ∷ es) j r v.sound in
    bound_pending-IsValid now (record (observe_all (e ∷ es) j) { dirty = true })
      (record { within = s.within; distinct = s.distinct; behind = s.behind })

pub observe_all-gap :
    (es : List Event) (j : Journal) → (observe_all es j).meta.gap_seq ≡ j.meta.gap_seq
unfolding observe_all observe
observe_all-gap [] j = refl
observe_all-gap (e ∷ es) j = observe_all-gap es (observe e j) ∙ ground arith

pub record_events-Grows :
    (es : List Event) (now : ℕ) (j : Journal)
    → Room (length es) j.meta.sequence
    → Room 1 j.meta.gap_seq
    → Grows (length es + 1) j (record_events es now j)
unfolding record_events
record_events-Grows [] now j r q = ground arith
record_events-Grows (e ∷ es) now j r q =
    let k = record (observe_all (e ∷ es) j) { dirty = true } in
    let g = observe_all-Grows (e ∷ es) j r in
    let q' : Room 1 k.meta.gap_seq = rw (observe_all-gap (e ∷ es) j) q in
    let g' : Grows (length (e ∷ es)) j k = ground arith in
    Grows-trans (length (e ∷ es)) 1 j k (bound_pending now k) g' (bound_pending-Grows now k q')

All-both :
    (low through high : ℕ) (es : List Entry) (new : ℕ)
    → (new ≡ low) ⊎ (new ≡ through)
    → All (Within low high) es
    → All (λ e. through < e.seq) es
    → All (Within new high) es
All-both low through high [] new n w a = tt
All-both low through high (e ∷ es) new n w a =
    (omega arith, All-both low through high es new n w.1 a.1)

-- The checkpoint that `advance` leaves is the later of the two.
pub advance-IsValid :
    (through generation : ℕ) (j : Journal)
    → through ≤ j.meta.sequence
    → IsValid j
    → IsValid (advance through generation j)
unfolding advance
advance-IsValid through generation j h v =
    let kept =
      All-delete (Within j.meta.checkpoint j.meta.sequence) through j.pending v.sound.within in
    let above = delete_through-above through j.pending in
    record {
      sound = record {
        within =
            All-both j.meta.checkpoint through j.meta.sequence (delete_through through j.pending) _
              (ground arith) kept above;
        distinct = Distinct-delete through j.pending v.sound.distinct;
        behind = ground arith;
      };
      fits = omega (arith, length-delete-le through j.pending);
    }

pub commit-IsValid :
    (through generation : ℕ) (j : Journal)
    → through ≤ j.meta.sequence
    → IsValid j
    → IsValid (commit through generation j)
unfolding commit
commit-IsValid through generation j h v = advance-IsValid through generation j h v

pub reconciled-IsValid :
    (m : Mark) (generation : ℕ) (j : Journal)
    → m.sequence ≤ j.meta.sequence
    → IsValid j
    → IsValid (reconciled m generation j)
unfolding reconciled
reconciled-IsValid m generation j h v = ground (arith, advance-IsValid m.sequence generation j h v)

-- A snapshot lists the entries oldest first, each number and each path once, all of them after the
-- checkpoint.
pub snapshot-Increasing :
    (j : Journal)
    → IsValid j
    → Increasing (snapshot j).pending
      × All (Within (snapshot j).checkpoint (snapshot j).sequence) (snapshot j).pending
unfolding snapshot
snapshot-Increasing j v =
    (in_order-Increasing j.pending v.sound.distinct, in_order-All _ j.pending v.sound.within)
