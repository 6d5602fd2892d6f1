-- ===== src/Supervisor/Sweeping.antt =====
-- What one sweep leaves.
use lctk.Prelude.{
  ℕ, ◌≡◌, refl, ap, ◌∙◌, inl, inr, Bool, Bool-cases, true, false, not, ◌||◌, ◌&&◌, Option,
  Option-cases, none, some, List, [], ◌∷◌, Text, text, text_eq, text_eq_iff, text_eq_refl, lookup,
  delete, lookup-insert, lookup-delete, passing, arith, if◌then◌else◌, if_cases,
}
use lctk.Worker
use lctk.Worker.{Worker, idle_since}
use lctk.Supervisor.{
  Supervisor, Status, unknown, absent, running, Quit, Launch, World, member, without, is_some,
  watching, new_worker, retarget, claim, publish, place, finish, start, on_worker, ensure, release,
  worker_ids, reap, reap_idle, visit, visit_all, release_rest, sweep,
}

-- A worker that is told an address: a new one takes the place of the old one and of the last error.
abbrev pub told : Text → Worker → Worker
told address w =
    if text_eq address [] || text_eq w.address address
    then w
    else record w { address = address; last_error = [] }

retarget-told : (address : Text) (w : Worker) → retarget address w ≡ told address w
unfolding retarget Worker.retarget
retarget-told address w =
    ground (arith, text_eq_iff w.address address, text_eq_iff address w.address)

-- The worker of a project that runs, after a sweep looked at it.
abbrev pub ensured : Option Worker → Bool → Text → Option Launch → Option Worker
ensured (some w) busy address l = some (told address w)
ensured none true address l = none
ensured none false address none = none
ensured none false address (some l) = some (new_worker address l)

-- What a supervisor has of one project.
abbrev Same : Text → Supervisor → Supervisor → Type 0
Same id s t =
    (lookup id t.workers ≡ lookup id s.workers)
    × (member id t.starting ≡ member id s.starting)
    × (t.closed ≡ s.closed)

pub member-without :
    (id j : Text) (ids : List Text)
    → text_eq j id ≡ false
    → member id (without j ids) ≡ member id ids
unfolding member without
member-without id j [] h = refl
member-without id j (i ∷ ids) h =
    ground
      (arith, h, text_eq_iff i j, text_eq_iff j id, text_eq_iff i id, member-without id j ids h)

ensure_lem :
    (id address : Text) (l : Option Launch) (s : Supervisor)
    → ensure id address l s ≡ (
        if watching id s || member id s.starting || s.closed
        then on_worker id (retarget address) s
        else start id address l (record s { starting = id ∷ s.starting }))
unfolding ensure claim
ensure_lem id address l s = elim (Bool-cases (watching id s || member id s.starting || s.closed)) [
  | inl busy ↦ rw busy
  | inr free ↦ rw free
]

module _ (id j : Text) (other : text_eq j id ≡ false) where
  on_worker-Same : (f : Worker → Worker) (s : Supervisor) → Same id s (on_worker j f s)
  unfolding on_worker
  on_worker-Same f s = elim (Option-cases (lookup j s.workers)) [
    | inl missing ↦ rw (missing, on_worker) (refl, refl, refl)
    | inr (w, found) ↦
        rw (found, on_worker) (lookup-insert j id (f w) s.workers ∙ rw other, refl, refl)
  ]

  publish-Same : (w : Worker) (s : Supervisor) → Same id s (publish j w s)
  unfolding publish place
  publish-Same w s =
      let added = place j w s in
      if_cases (Same id s) s.closed s (if watching j s then s else added)
        (λ shut. (refl, refl, refl))
        (λ open_yet.
          if_cases (Same id s) (watching j s) s added (λ raced. (refl, refl, refl))
            (λ free. (lookup-insert j id w s.workers ∙ rw other, refl, refl)))

  start-Same :
      (address : Text) (l : Option Launch) (s : Supervisor) → Same id s (start j address l s)
  unfolding start finish
  start-Same address none s = (refl, member-without id j s.starting other, refl)
  start-Same address (some l) s =
      let (found, pending, shut) = publish-Same (new_worker address l) s in
      (
        found,
        member-without id j (publish j (new_worker address l) s).starting other ∙ pending,
        shut,
      )

  ensure-Same :
      (address : Text) (l : Option Launch) (s : Supervisor) → Same id s (ensure j address l s)
  ensure-Same address l s =
      let claimed = record s { starting = j ∷ s.starting } in
      let (found, pending, shut) = start-Same address l claimed in
      let pending' : member id claimed.starting ≡ member id s.starting =
        unfold member in rw other in
      rw (ensure_lem j address l s) (
        if_cases (Same id s) (watching j s || member j s.starting || s.closed)
          (on_worker j (retarget address) s) (start j address l claimed)
          (λ busy. on_worker-Same (retarget address) s) (λ free. (found, pending ∙ pending', shut)))

start-lookup :
    (id address : Text) (l : Option Launch) (s : Supervisor)
    → lookup id s.workers ≡ none
    → s.closed ≡ false
    → lookup id (start id address l s).workers ≡ ensured none false address l
unfolding start finish publish watching
start-lookup id address none s missing open_yet = missing
start-lookup id address (some l) s missing open_yet = ground (
  arith,
  missing,
  open_yet,
  lookup-insert id id (new_worker address l) s.workers,
  text_eq_refl id,
)

on_worker-found :
    (id : Text) (f : Worker → Worker) (s : Supervisor) (w : Worker)
    → lookup id s.workers ≡ some w
    → lookup id (on_worker id f s).workers ≡ some (f w)
unfolding on_worker
on_worker-found id f s w found =
    rw (found, on_worker) (lookup-insert id id (f w) s.workers ∙ rw (text_eq_refl id))

on_worker-missing :
    (id : Text) (f : Worker → Worker) (s : Supervisor)
    → lookup id s.workers ≡ none
    → on_worker id f s ≡ s
unfolding on_worker
on_worker-missing id f s missing = rw (missing, on_worker)

lookup-ensure :
    (id address : Text) (l : Option Launch) (s : Supervisor)
    → lookup id (ensure id address l s).workers
      ≡ ensured (lookup id s.workers) (member id s.starting || s.closed) address l
unfolding watching
lookup-ensure id address l s =
    rw (ensure_lem id address l s) (elim (Option-cases (lookup id s.workers)) [
      | inr (w, found) ↦
          rw found
            (on_worker-found id (retarget address) s w found ∙ ap some (retarget-told address w))
      | inl missing ↦ elim (Bool-cases (member id s.starting || s.closed)) [
        | inl busy ↦ rw (missing, busy, on_worker-missing id (retarget address) s missing) missing
        | inr free ↦
            rw (missing, free)
              (start-lookup id address l (record s { starting = id ∷ s.starting }) missing
                (ground (arith, free)))
      ]
    ])

-- What a sweep has of a project before it reaps, by the answer for it.
abbrev pub swept : World → Text → Status → Supervisor → Option Worker
swept o id unknown s = lookup id s.workers
swept o id absent s = none
swept o id (running address) s =
    if text_eq address []
    then none
    else ensured (lookup id s.workers) (member id s.starting || s.closed) address (o.launch id)

visit-Same :
    (o : World) (id j : Text) (st : Status) (s : Supervisor)
    → text_eq j id ≡ false
    → Same id s (visit o j st s).0
unfolding visit
visit-Same o id j unknown s other = (refl, refl, refl)
visit-Same o id j absent s other = (refl, refl, refl)
visit-Same o id j (running address) s other =
    if_cases (λ (r : Supervisor × Bool). Same id s r.0) (text_eq address []) (s, false)
      (ensure j address (o.launch j) s, true) (λ nowhere. (refl, refl, refl))
      (λ somewhere. ensure-Same id j other address (o.launch j) s)

-- What is left of a project when only the live ones stay.
abbrev staying : Bool → Option Worker → Option Worker
staying alive found = if alive then found else none

staying-watched : (found : Option Worker) → staying (is_some found) found ≡ found
staying-watched none = refl
staying-watched (some w) = refl

visit-swept :
    (o : World) (id : Text) (st : Status) (s : Supervisor)
    → staying (visit o id st s).1 (lookup id (visit o id st s).0.workers) ≡ swept o id st s
unfolding visit watching
visit-swept o id unknown s = staying-watched (lookup id s.workers)
visit-swept o id absent s = refl
visit-swept o id (running address) s = elim (Bool-cases (text_eq address [])) [
  | inl nowhere ↦ rw nowhere
  | inr somewhere ↦ rw somewhere (lookup-ensure id address (o.launch id) s)
]

swept-Same :
    (o : World) (id : Text) (st : Status) (s t : Supervisor)
    → Same id s t
    → swept o id st t ≡ swept o id st s
swept-Same o id unknown s t (found, pending, shut) = found
swept-Same o id absent s t same = refl
swept-Same o id (running address) s t (found, pending, shut) = rw (found, pending, shut)

-- No project stands twice.
abbrev pub AreDistinct : List Text → Type 0
AreDistinct [] = Unit
AreDistinct (i ∷ ids) = (member i ids ≡ false) × AreDistinct ids

Same-trans : (id : Text) (s t u : Supervisor) → Same id s t → Same id t u → Same id s u
Same-trans id s t u (a, b, c) (a', b', c') = (a' ∙ a, b' ∙ b, c' ∙ c)

visit_all-missing :
    (o : World) (id : Text) (ids : List Text) (s : Supervisor)
    → member id ids ≡ false
    → Same id s (visit_all o ids s).0 × (member id (visit_all o ids s).1 ≡ false)
unfolding visit_all member
visit_all-missing o id [] s h = ((refl, refl, refl), refl)
visit_all-missing o id (i ∷ ids) s h =
    let other : text_eq i id ≡ false = ground (arith, h) in
    let s' = (visit o i (o.status i) s).0 in
    let (same, absent_yet) = visit_all-missing o id ids s' (ground (arith, h)) in
    let live = (visit_all o ids s').1 in
    (
      Same-trans id s s' (visit_all o ids s').0 (visit-Same o id i (o.status i) s other) same,
      if_cases (λ l. member id l ≡ false) (visit o i (o.status i) s).1 (i ∷ live) live
          (λ alive. rw (other, absent_yet)) (λ dead. absent_yet),
    )

head_live :
    (b : Bool) (id : Text) (live : List Text)
    → member id live ≡ false
    → member id (if b then id ∷ live else live) ≡ b
unfolding member
head_live true id live h = rw (text_eq_refl id)
head_live false id live h = h

visit_all-head :
    (o : World) (id : Text) (ids : List Text) (s : Supervisor)
    → member id ids ≡ false
    → staying
        (member id (visit_all o (id ∷ ids) s).1)
        (lookup id (visit_all o (id ∷ ids) s).0.workers)
      ≡ swept o id (o.status id) s
unfolding visit_all
visit_all-head o id ids s h =
    let v = visit o id (o.status id) s in
    let (same, absent_yet) = visit_all-missing o id ids v.0 h in
    rw (head_live v.1 id (visit_all o ids v.0).1 absent_yet, same.0)
      (visit-swept o id (o.status id) s)

tail_live :
    (b : Bool) (id i : Text) (live : List Text)
    → text_eq i id ≡ false
    → member id (if b then i ∷ live else live) ≡ member id live
unfolding member
tail_live true id i live h = rw h
tail_live false id i live h = refl

visit_all-swept :
    (o : World) (id : Text) (ids : List Text) (s : Supervisor)
    → AreDistinct ids
    → member id ids ≡ true
    → staying (member id (visit_all o ids s).1) (lookup id (visit_all o ids s).0.workers)
      ≡ swept o id (o.status id) s
unfolding member visit_all
visit_all-swept o id [] s d h = cc h
visit_all-swept o id (i ∷ ids) s d h = elim (Bool-cases (text_eq i id)) [
  | inl same ↦ let e = (text_eq_iff i id).0 same in rw e (visit_all-head o id ids s (rw e at d.0))
  | inr other ↦
      let v = visit o i (o.status i) s in
      rw (tail_live v.1 id i (visit_all o ids v.0).1 other) (
        visit_all-swept o id ids v.0 d.1 (ground (arith, h, other))
        ∙ swept-Same o id (o.status id) s v.0 (visit-Same o id i (o.status i) s other))
]

release-workers :
    (i detail : Text) (q : Quit) (s : Supervisor)
    → (release i detail q s).workers ≡ delete i s.workers
unfolding release
release-workers i detail q s = ground arith

released-lookup :
    (b : Bool) (id i detail : Text) (q : Quit) (s : Supervisor)
    → lookup id (if b then s else release i detail q s).workers
      ≡ (if text_eq i id && not b then none else lookup id s.workers)
released-lookup true id i detail q s = ground arith
released-lookup false id i detail q s =
    rw (release-workers i detail q s) (lookup-delete i id s.workers ∙ ground arith)

release_rest-lookup :
    (o : World) (id : Text) (live ids : List Text) (s : Supervisor)
    → lookup id (release_rest o live ids s).workers
      ≡ (if member id ids && not (member id live) then none else lookup id s.workers)
unfolding release_rest member
release_rest-lookup o id live [] s = refl
release_rest-lookup o id live (i ∷ ids) s =
    let detail = text "the project is no longer running" in
    let s' = if member i live then s else release i detail (o.quit i) s in
    release_rest-lookup o id live ids s'
    ∙ ground (arith, released-lookup (member i live) id i detail (o.quit i) s, text_eq_iff i id)

passing-passing :
    (p : Worker → Bool) (found : Option Worker) → passing p (passing p found) ≡ passing p found
passing-passing p none = refl
passing-passing p (some w) = ground arith

abbrev idle_detail : Text
idle_detail = text "the project has been idle"

-- One round of the reaping.
reap_one : ℕ → Quit → Text → Supervisor → Supervisor
reap_one now q i s = elim (lookup i s.workers) [
  | none ↦ s
  | some w ↦ if idle_since now w then release i (text "the project has been idle") q s else s
]

reap_one-lookup :
    (now : ℕ) (q : Quit) (id i : Text) (s : Supervisor)
    → lookup id (reap_one now q i s).workers ≡ (
        if text_eq i id
        then passing (λ w. not (idle_since now w)) (lookup id s.workers)
        else lookup id s.workers)
unfolding reap_one
reap_one-lookup now q id i s = elim (Bool-cases (text_eq i id)) [
  | inl same ↦
      rw ((text_eq_iff i id).0 same, text_eq_refl id)
        (elim (Option-cases (lookup id s.workers)) [
          | inl missing ↦ rw (missing, reap_one) missing
          | inr (w, found) ↦
              rw (found, reap_one)
                (elim (Bool-cases (idle_since now w)) [
                  | inl idle ↦
                      rw (idle, release-workers id idle_detail q s)
                        (lookup-delete id id s.workers ∙ rw (text_eq_refl id))
                  | inr used ↦ rw used found
                ])
        ])
  | inr other ↦ rw other (elim (Option-cases (lookup i s.workers)) [
    | inl missing ↦ rw (missing, reap_one) refl
    | inr (w, found) ↦
        rw (found, reap_one)
          (if_cases (λ (t : Supervisor). lookup id t.workers ≡ lookup id s.workers)
            (idle_since now w) (release i idle_detail q s) s
            (λ idle.
              rw (release-workers i idle_detail q s) (lookup-delete i id s.workers ∙ rw other))
            (λ used. refl))
  ])
]

reap-lookup :
    (now : ℕ) (q : Text → Quit) (id : Text) (ids : List Text) (s : Supervisor)
    → lookup id (reap now q ids s).workers ≡ (
        if member id ids
        then passing (λ w. not (idle_since now w)) (lookup id s.workers)
        else lookup id s.workers)
unfolding reap reap_one member
reap-lookup now q id [] s = refl
reap-lookup now q id (i ∷ ids) s =
    let p = λ (w : Worker). not (idle_since now w) in
    reap-lookup now q id ids (reap_one now (q i) i s)
    ∙ ground (arith, reap_one-lookup now (q i) id i s, passing-passing p (lookup id s.workers))

member-worker_ids :
    (id : Text) (m : List (Text × Worker)) → member id (worker_ids m) ≡ false → lookup id m ≡ none
unfolding member lookup
member-worker_ids id [] h = refl
member-worker_ids id ((i, w) ∷ m) h = ground (arith, h, member-worker_ids id m)

all_ids :
    {found : Option Worker} (p : Worker → Bool) (id : Text) (m : List (Text × Worker))
    → found ≡ (if member id (worker_ids m) then passing p (lookup id m) else lookup id m)
    → found ≡ passing p (lookup id m)
all_ids p id m e = elim (Bool-cases (member id (worker_ids m))) [
  | inl present ↦ e ∙ rw present
  | inr missing ↦ e ∙ rw (missing, member-worker_ids id m missing)
]

-- After a sweep over distinct projects, a project has exactly the worker that was due to it,
-- unless that is idle by then. A project that is not listed, is not running or has no address has
-- none; one whose state is unknown keeps the one that it had; one that runs keeps its worker,
-- pointed at the address, or gets the one that was launched, unless the launch failed, another
-- start is under way or the supervisor is closed.
pub lookup-sweep :
    (o : World) (id : Text) (projects : List Text) (s : Supervisor)
    → AreDistinct projects
    → lookup id (sweep o projects s).workers
      ≡ passing
          (λ w. not (idle_since o.now w))
          (if member id projects then swept o id (o.status id) s else none)
unfolding sweep reap_idle
lookup-sweep o id projects s d =
    let t = (visit_all o projects s).0 in
    let live = (visit_all o projects s).1 in
    let u = release_rest o live (worker_ids t.workers) t in
    let p = λ (w : Worker). not (idle_since o.now w) in
    let reaped : lookup id (reap o.now o.quit (worker_ids u.workers) u).workers
        ≡ passing p (lookup id u.workers) =
      all_ids p id u.workers (reap-lookup o.now o.quit id (worker_ids u.workers) u) in
    let left : lookup id u.workers ≡ staying (member id live) (lookup id t.workers) =
      release_rest-lookup o id live (worker_ids t.workers) t
      ∙ ground (arith, member-worker_ids id t.workers) in
    reaped
    ∙ ap (passing p) (
        left ∙ elim (Bool-cases (member id projects)) [
          | inl known ↦ rw known (visit_all-swept o id projects s d known)
          | inr unlisted ↦ rw unlisted (rw ((visit_all-missing o id projects s unlisted).1) refl)
        ])
