-- ===== src/Index/Building/Publishing.antt =====
-- What a reader of the index sees before and after a build.
use lctk.Prelude.{ℕ, ◌+◌, ◌<◌, ◌≡◌, ◌≢◌, refl, Option, none, some, arith, if_cases}
use lctk.Index.{Limits, State, Result, ok, err}
use lctk.Index.Building.{
  decoded, Link, absent, unresolvable, points, Generation, BuildPlan, Run, Engine, Index,
  read_state, read_generation, resolve_link, resolve_current, put_generation, pruned, prune, commit,
  commit_staged, stage, built_state, build,
}

read_generation-number :
    {Sh : Type 0}
    → (m n : ℕ) (g : Option (Generation Sh)) (s : State) → read_generation m g ≡ ok (n, s)
    → m ≡ n
unfolding read_generation read_state
read_generation-number m n none s h = cc
read_generation-number m n (some g) s h = ground arith

-- What a link to a published generation resolves to is decided by that one directory.
pub resolve_link-at :
    {Sh : Type 0}
    → (n : ℕ) (gens gens' : ℕ → Option (Generation Sh)) (s : State) (link : Link)
    → resolve_link link gens ≡ ok (n, s)
    → gens' n ≡ gens n
    → resolve_link link gens' ≡ ok (n, s)
unfolding resolve_link
resolve_link-at n gens gens' s absent h e = cc
resolve_link-at n gens gens' s unresolvable h e = cc
resolve_link-at n gens gens' s (points m) h e =
    let number = read_generation-number m n (gens m) s h in rw number (rw e (rw number at h))

put_generation-other :
    {Sh : Type 0}
    → (n m : ℕ) (g : Option (Generation Sh)) (gens : ℕ → Option (Generation Sh)) → n ≢ m
    → put_generation n g gens m ≡ gens m
unfolding put_generation
put_generation-other n m g gens other = ground arith

module _ (E : Engine) (limits : Limits) (r : Run E.Shards) (n : ℕ) (s : State) where
  -- After an error a reader sees what it saw; after a success, the generation of the plan.
  abbrev pub Publishes : BuildPlan → Result State × Index E → Type 0
  Publishes p (err e, st) = resolve_current st ≡ ok (n, s)
  Publishes p (ok s', st) =
      (s' ≡ built_state E limits r p) × (resolve_current st ≡ ok (p.generation, s'))

  -- A generation whose number is less than the bound away from the newest is kept.
  pub prune-kept :
      (current m : ℕ) (gens : ℕ → Option (Generation E.Shards))
      → current < m + limits.keep_generations
      → prune E limits r current gens m ≡ gens m
  unfolding prune pruned
  prune-kept current m gens near = ground arith

  read_placed :
      (p : BuildPlan) (g : Generation E.Shards) (gens : ℕ → Option (Generation E.Shards))
      → g.state ≡ decoded (built_state E limits r p)
      → read_generation p.generation (put_generation p.generation (some g) gens p.generation)
        ≡ ok (p.generation, built_state E limits r p)
  unfolding read_generation put_generation read_state built_state
  read_placed p g gens e = ground arith

  pub commit-Publishes :
      (p : BuildPlan) (g : Generation E.Shards) (st : Index E)
      → resolve_current st ≡ ok (n, s)
      → g.state ≡ decoded (built_state E limits r p)
      → 0 < limits.keep_generations
      → p.generation ≢ n
      → Publishes p (commit E limits r p.generation g (built_state E limits r p) st)
  unfolding commit resolve_current
  commit-Publishes p g st h e keep new =
      let beside = λ (x : Option (Generation E.Shards)).
        resolve_link-at n st.generations (put_generation p.generation x st.generations) s st.current
          h (put_generation-other p.generation n x st.generations new) in
      if_cases (Publishes p) r.target_kept _ _ (λ _. beside _)
        λ _.
          if_cases (Publishes p) r.not_renamed _ _ (λ _. beside _)
            λ _.
              if_cases (Publishes p) r.not_published _ _ (λ _. beside _)
                λ _. (
                  refl,
                  rw (prune-kept p.generation p.generation _ (omega (arith, keep)))
                      (read_placed p g st.generations e),
                )

  stage-state :
      (p : BuildPlan) (st : Index E) (g : Generation E.Shards)
      → stage E limits r p st ≡ ok g
      → g.state ≡ decoded (built_state E limits r p)
  unfolding stage
  stage-state p st g h = ground arith

  commit_staged-Publishes :
      (p : BuildPlan) (st : Index E) (staged : Result (Generation E.Shards))
      → stage E limits r p st ≡ staged
      → resolve_current st ≡ ok (n, s)
      → 0 < limits.keep_generations
      → p.generation ≢ n
      → Publishes p (commit_staged E limits r p staged st)
  unfolding commit_staged
  commit_staged-Publishes p st (err e) staged h keep new = h
  commit_staged-Publishes p st (ok g) staged h keep new =
      commit-Publishes p g st h (stage-state p st g staged) keep new

  pub build-Publishes :
      (p : BuildPlan) (st : Index E)
      → resolve_current st ≡ ok (n, s)
      → 0 < limits.keep_generations
      → p.generation ≢ n
      → Publishes p (build E limits r p st)
  unfolding build
  build-Publishes p st h keep new =
      commit_staged-Publishes p st (stage E limits r p st) refl h keep new
