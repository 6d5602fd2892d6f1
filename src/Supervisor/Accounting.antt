-- ===== src/Supervisor/Accounting.antt =====
-- Where the workers go, whatever is interleaved.
use lctk.Prelude.{
  ◌≡◌, ◌≢◌, refl, sym, append_assoc, ap, ◌∙◌, ◌⊎◌, inl, inr, Bool, Bool-cases, true, false, ◌||◌,
  Option-cases, none, List, [], ◌∷◌, ◌++◌, Text, text_eq, text_eq_iff, text_eq_refl, lookup, insert,
  lookup-insert, lookup-delete, All, Any, Any-append_left, Any-append_right, arith, if◌then◌else◌,
  if_cases,
}
use lctk.Worker.{Worker}
use lctk.Supervisor.{
  Supervisor, Quit, Action, claims, publishes, finishes, releases, retargets, touches, flushes,
  drains, closes, member, is_some, watching, place, stop_worker, new_worker, claim, publish, finish,
  on_worker, release, stop_all, close, act, run,
}
use lctk.Supervisor.Sweeping.{member-without}
use lctk.Supervisor.Invariant.{IsValid, IsStopped, run-IsValid, close-IsValid}

abbrev Named : Text → Text × Worker → Type 0
Named id p = p.0 ≡ id

-- Since an earlier list of stopped workers, those that were added to it, and the project's worker is in
-- the table or one of its workers is among them.
abbrev Accounted : Text → List (Text × Worker) → Supervisor → Type 0
Accounted id base s =
    (added : List (Text × Worker)) × (s.let_go ≡ added ++ base)
    × ((watching id s ≡ true) ⊎ Any (Named id) added)

insert-watching :
    (id j : Text) (w : Worker) (s : Supervisor)
    → watching id s ≡ true
    → watching id (record s { workers = insert j w s.workers }) ≡ true
unfolding watching
insert-watching id j w s here = rw (lookup-insert j id w s.workers) (ground (arith, here))

place-Accounted :
    (id j : Text) (w : Worker) (base : List (Text × Worker)) (s : Supervisor)
    → Accounted id base s
    → Accounted id base (place j w s)
unfolding place watching
place-Accounted id j w base s (added, e, inr gone) = (added, e, inr gone)
place-Accounted id j w base s (added, e, inl here) =
    (added, e, inl (rw (lookup-insert j id w s.workers) (ground (arith, here))))

on_worker-Accounted :
    (id j : Text) (f : Worker → Worker) (base : List (Text × Worker)) (s : Supervisor)
    → Accounted id base s
    → Accounted id base (on_worker j f s)
unfolding on_worker
on_worker-Accounted id j f base s (added, e, h) = elim (Option-cases (lookup j s.workers)) [
  | inl missing ↦ rw (missing, on_worker) (added, e, h)
  | inr (w, found) ↦
      rw (found, on_worker)
        (
          added,
          e,
          elim h [ inl here ↦ inl (insert-watching id j (f w) s here) | inr gone ↦ inr gone ],
        )
]

release-Accounted :
    (id j detail : Text) (q : Quit) (base : List (Text × Worker)) (s : Supervisor)
    → Accounted id base s
    → Accounted id base (release j detail q s)
unfolding release watching
release-Accounted id j detail q base s (added, e, h) = elim (Option-cases (lookup j s.workers)) [
  | inl missing ↦
      rw (missing, release)
        (
          added,
          e,
          elim h [
            | inl here ↦ inl (
                rw (lookup-delete j id s.workers) (ground (arith, here, missing, text_eq_iff j id)))
            | inr gone ↦ inr gone
          ],
        )
  | inr (w, found) ↦
      rw (found, release)
        (
          (j, stop_worker detail q w) ∷ added,
          ap (λ m. (j, stop_worker detail q w) ∷ m) e,
          elim (Bool-cases (text_eq j id)) [
            | inl same ↦ inr (inl ((text_eq_iff j id).0 same))
            | inr other ↦ elim h [
              | inl here ↦ inl (rw (lookup-delete j id s.workers, other) here)
              | inr gone ↦ inr (inr gone)
            ]
          ],
        )
]

stop_all-Named :
    (id : Text) (q : Text → Quit) (m : List (Text × Worker))
    → is_some (lookup id m) ≡ true
    → Any (Named id) (stop_all q m)
unfolding lookup
stop_all-Named id q [] h = cc h
stop_all-Named id q ((i, w) ∷ m) h = elim (Bool-cases (text_eq i id)) [
  | inl same ↦ inl ((text_eq_iff i id).0 same)
  | inr other ↦ inr (stop_all-Named id q m (rw other at h))
]

close-Accounted :
    (id : Text) (q : Text → Quit) (base : List (Text × Worker)) (s : Supervisor)
    → Accounted id base s
    → Accounted id base (close q s)
unfolding close watching
close-Accounted id q base s (added, e, h) =
    if_cases (Accounted id base) s.closed s
      (record s { closed = true; workers = []; let_go = stop_all q s.workers ++ s.let_go })
      (λ shut. (added, e, h))
      (λ open_yet. (
        stop_all q s.workers ++ added,
        ap (λ m. stop_all q s.workers ++ m) e
            ∙ sym (append_assoc (stop_all q s.workers) added base),
        inr (elim h [
          | inl here ↦
              Any-append_left (Named id) (stop_all q s.workers) added
                (stop_all-Named id q s.workers here)
          | inr gone ↦ Any-append_right (Named id) (stop_all q s.workers) added gone
        ]),
      ))

publish-Accounted :
    (id j : Text) (w : Worker) (base : List (Text × Worker)) (s : Supervisor)
    → Accounted id base s
    → Accounted id base (publish j w s)
unfolding publish
publish-Accounted id j w base s h =
    let added = place j w s in
    if_cases (Accounted id base) s.closed s (if watching j s then s else added) (λ shut. h)
      (λ open_yet.
        if_cases (Accounted id base) (watching j s) s added (λ raced. h)
          (λ free. place-Accounted id j w base s h))

claim-Accounted :
    (id j : Text) (base : List (Text × Worker)) (s : Supervisor)
    → Accounted id base s
    → Accounted id base (claim j s).0
unfolding claim watching
claim-Accounted id j base s h =
    if_cases (λ (r : Supervisor × Bool). Accounted id base r.0)
      (watching j s || member j s.starting || s.closed) (s, false)
      (record s { starting = j ∷ s.starting }, true) (λ busy. h) (λ free. h)

act-Accounted :
    (id : Text) (a : Action) (base : List (Text × Worker)) (s : Supervisor)
    → Accounted id base s
    → Accounted id base (act a s)
unfolding act
act-Accounted id (claims j) base s h = claim-Accounted id j base s h
act-Accounted id (publishes j address l) base s h =
    publish-Accounted id j (new_worker address l) base s h
act-Accounted id (finishes j) base s h = unfold finish watching in h
act-Accounted id (releases j detail q) base s h = release-Accounted id j detail q base s h
act-Accounted id (retargets j address) base s h = on_worker-Accounted id j _ base s h
act-Accounted id (touches j now) base s h = on_worker-Accounted id j _ base s h
act-Accounted id (flushes j a) base s h = on_worker-Accounted id j _ base s h
act-Accounted id (drains j locked a) base s h = on_worker-Accounted id j _ base s h
act-Accounted id (closes q) base s h = close-Accounted id q base s h

run-Accounted :
    (id : Text) (more : List Action) (base : List (Text × Worker)) (s : Supervisor)
    → Accounted id base s
    → Accounted id base (run more s)
unfolding run
run-Accounted id [] base s h = h
run-Accounted id (a ∷ more) base s h =
    run-Accounted id more base (act a s) (act-Accounted id a base s h)

find_gone :
    (id : Text) (m : List (Text × Worker))
    → All IsStopped m
    → Any (Named id) m
    → Any (λ p. (p.0 ≡ id) × IsStopped p) m
find_gone id [] h a = absurd a
find_gone id (p ∷ m) h (inl e) = inl (e, h.0)
find_gone id (p ∷ m) h (inr a) = inr (find_gone id m h.1 a)

All-prefix : (m rest : List (Text × Worker)) → All IsStopped (m ++ rest) → All IsStopped m
All-prefix [] rest h = tt
All-prefix (p ∷ m) rest h = (h.0, All-prefix m rest h.1)

-- No worker is lost: from a valid state and whatever the supervisor's methods do in whatever
-- order, no worker is overwritten by a second one of its project, the stopped workers are those
-- of before and the ones added on the way, and a project that was watched is still watched, or a
-- worker of it is among the added ones, and then it is marked as released and its journal has a
-- gap.
pub run-IsStopped :
    (id : Text) (more : List Action) (s : Supervisor)
    → IsValid s
    → watching id s ≡ true
    → ((run more s).overwritten ≡ [])
      × (added : List (Text × Worker)) × ((run more s).let_go ≡ added ++ s.let_go)
      × ((watching id (run more s) ≡ true) ⊎ Any (λ p. (p.0 ≡ id) × IsStopped p) added)
run-IsStopped id more s v here =
    let w = run-IsValid more s v in
    let (added, e, h) = run-Accounted id more s.let_go s ([], refl, inl here) in
    (
      w.single,
      added,
      e,
      elim h [
        | inl still ↦ inl still
        | inr gone ↦ inr (find_gone id added (All-prefix added s.let_go (rw e at w.stopped)) gone)
      ],
    )

-- Closing is for good.
act-closed : (a : Action) (s : Supervisor) → s.closed ≡ true → (act a s).closed ≡ true
unfolding act claim publish finish release on_worker close
act-closed (claims j) s h = ground (arith, h)
act-closed (publishes j address l) s h = ground (arith, h)
act-closed (finishes j) s h = h
act-closed (releases j detail q) s h = ground (arith, h)
act-closed (retargets j address) s h = ground (arith, h)
act-closed (touches j now) s h = ground (arith, h)
act-closed (flushes j a) s h = ground (arith, h)
act-closed (drains j locked a) s h = ground (arith, h)
act-closed (closes q) s h = ground (arith, h)

run-closed : (more : List Action) (s : Supervisor) → s.closed ≡ true → (run more s).closed ≡ true
unfolding run
run-closed [] s h = h
run-closed (a ∷ more) s h = run-closed more (act a s) (act-closed a s h)

close-closed : (q : Text → Quit) (s : Supervisor) → (close q s).closed ≡ true
unfolding close
close-closed q s = ground arith

empty_table : (id : Text) (s : Supervisor) → s.workers ≡ [] → watching id s ≢ true
unfolding watching lookup
empty_table id s e h =
    let nothing : lookup id s.workers ≡ none = ap (λ m. lookup id m) e in cc (nothing, h)

-- From a valid state, after a close and whatever follows it, the table is empty and no start is
-- granted, and a project that was watched has a worker that was stopped, which is marked as
-- released and whose journal has a gap.
pub close_final :
    (id : Text) (q : Text → Quit) (more : List Action) (s : Supervisor)
    → IsValid s
    → ((run more (close q s)).workers ≡ [])
      × ((claim id (run more (close q s))).1 ≡ false)
      × (watching id s ≡ true → Any (λ p. (p.0 ≡ id) × IsStopped p) (run more (close q s)).let_go)
close_final id q more s v =
    let t = run more (close q s) in
    let w : IsValid t = run-IsValid more (close q s) (close-IsValid q s v) in
    let shut : t.closed ≡ true = run-closed more (close q s) (close-closed q s) in
    (
      w.empty shut,
      unfold claim in ground (arith, shut),
      λ here.
          let (added, e, h) =
            run-Accounted id more s.let_go (close q s)
              (close-Accounted id q s.let_go s ([], refl, inl here)) in
          elim h [
            | inl still ↦ absurd (empty_table id t (w.empty shut) still)
            | inr gone ↦
                find_gone id t.let_go w.stopped
                  (rw e (Any-append_left (Named id) added s.let_go gone))
          ],
    )

abbrev pub finishes_it : Text → Action → Bool
finishes_it id (finishes j) = text_eq j id
finishes_it id _ = false

act-starting :
    (id : Text) (a : Action) (s : Supervisor)
    → finishes_it id a ≡ false
    → member id s.starting ≡ true
    → member id (act a s).starting ≡ true
unfolding act claim publish finish release on_worker close member
act-starting id (claims j) s f h = ground (arith, h)
act-starting id (publishes j address l) s f h = ground (arith, h)
act-starting id (finishes j) s f h = member-without id j s.starting f ∙ h
act-starting id (releases j detail q) s f h = ground (arith, h)
act-starting id (retargets j address) s f h = ground (arith, h)
act-starting id (touches j now) s f h = ground (arith, h)
act-starting id (flushes j a) s f h = ground (arith, h)
act-starting id (drains j locked a) s f h = ground (arith, h)
act-starting id (closes q) s f h = ground (arith, h)

run-starting :
    (id : Text) (more : List Action) (s : Supervisor)
    → All (λ a. finishes_it id a ≡ false) more
    → member id s.starting ≡ true
    → member id (run more s).starting ≡ true
unfolding run
run-starting id [] s f h = h
run-starting id (a ∷ more) s f h = run-starting id more (act a s) f.1 (act-starting id a s f.0 h)

claimed :
    (id : Text) (s : Supervisor) → (claim id s).1 ≡ true → member id (claim id s).0.starting ≡ true
unfolding claim member
claimed id s won = ground (arith, won, text_eq_refl id)

-- Once a start of a project is granted, whatever is done in whatever order, no second start of it
-- is granted until a start of it finishes.
pub claim_once :
    (id : Text) (more : List Action) (s : Supervisor)
    → (claim id s).1 ≡ true
    → All (λ a. finishes_it id a ≡ false) more
    → (claim id (run more (claim id s).0)).1 ≡ false
claim_once id more s won f =
    let pending : member id (claim id s).0.starting ≡ true = claimed id s won in
    let still = run-starting id more (claim id s).0 f pending in
    let t = run more (claim id s).0 in unfold claim in ground (arith, still)
