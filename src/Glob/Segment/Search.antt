-- ===== src/Glob/Segment/Search.antt =====
-- The loop of matchSegment comes to an end, and its answer is right.
use lctk.Prelude.{
  ℕ, zero, suc, ◌+◌, ◌*◌, ◌≤◌, ◌<◌, ◌≡◌, ◌≢◌, refl, ap, sym, ◌∙◌, subst, inl, inr, ◌↔◌, Bool,
  Bool-cases, Option-cases, true, false, Option, none, some, [], ◌∷◌, Text, cut, arith, ◌==◌,
  length, All,
}
use lctk.Glob.{
  Move, consumed, begun, unclosed, stuck, star, next_move, act, only_stars, Star, Round,
  segment_loop, segment_fuel, match_segment, answer,
}
use lctk.Glob.Segment.{
  Takes, Fits, end, leave, more, byte, IsPlain, Means, next_move-Means, Item, Takes-Item, byte_inv,
  star_inv, star_end, star_over, two_stars, Unclosed-star, only_stars_iff,
}

length-cut : (c : ℕ) (s k r : Text) → cut c s ≡ some (k, r) → length r < length s
unfolding cut
length-cut c [] k r e = cc e
length-cut c (x ∷ s) k r e = elim (Bool-cases (x == c)) [
  | inl here ↦ ground (arith, here, e)
  | inr later ↦ elim (Option-cases (cut c s)) [
    | inl nothing ↦ cc (rw (later, nothing) at e)
    | inr ((k', r'), found) ↦
        let same : some (x ∷ k', r') ≡ some (k, r) = rw (later, found) at e in
        let rest : length r' ≡ length r = ap length (cc same) in
        omega (arith, length-cut c s k' r' found, rest)
  ]
]

length-Takes : (g r : Text) (c : ℕ) → Takes g c r → length r < length g
length-Takes [] r c t = absurd t
length-Takes (x ∷ g) r c (inl (_, e)) = omega (arith, ap length e)
length-Takes (x ∷ g) r c (inr (inl (_, _, _, _, e))) = omega (arith, ap length e)
length-Takes (x ∷ g) r c (inr (inr (_, k, e, _))) = omega (arith, length-cut b']' g k r e)

-- A glob that begins with no star and whose first item does not take the byte.
nothing_first :
    (g n : Text) (c : ℕ)
    → ((r : Text) → g ≢ star ∷ r)
    → ((r : Text) → ¬ Takes g c r)
    → ¬ Fits g (c ∷ n)
nothing_first g n c a b (leave _ _ r e d) = a r e
nothing_first g n c a b (more _ _ r _ e d) = a r e
nothing_first g n c a b (byte _ _ r _ t d) = b r t

-- Where the glob after a star does not fit, the star takes the byte.
star_passes : (h o : Text) (b : ℕ) → Fits (star ∷ h) (b ∷ o) → ¬ Fits h (b ∷ o) → Fits (star ∷ h) o
star_passes h o b f misfit = elim (star_inv h (b ∷ o) f) [
  | inl now ↦ absurd (misfit now)
  | inr (c, m, e, later) ↦ subst (λ z. Fits (star ∷ h) z) (cc e) later
]

-- The answer is right about a question.
abbrev Answers : Type 0 → Option Bool → Type 0
Answers G none = ⊥
Answers G (some true) = G
Answers G (some false) = ¬ G

Answers-iff : (G : Type 0) (b : Bool) → (b ≡ true) ↔ G → Answers G (some b)
Answers-iff G true e = e.0 refl
Answers-iff G false e = λ g. cc (e.1 g)

-- `G` is what is asked at the start; `k` is above the length of every glob on the way.
module _ (G : Type 0) (k : ℕ) where
  -- What the last star stands for, with a bound for the name at it.
  abbrev Stands : ℕ → Text → Text → Star → Type 0
  Stands m g n none = G → Fits g n
  Stands m g n (some (h, o)) =
      (G ↔ Fits (star ∷ h) o)
      × (Fits h o → Fits g n)
      × (length n ≤ length o)
      × (length o ≤ m)
      × (length h < k)
      × All IsPlain o

  record Running (f m : ℕ) (g n : Text) (s : Star) : Type 0 where
    enough : Fits g n → G
    needed : G → Fits (star ∷ g) n
    stands : Stands m g n s
    plain : All IsPlain n
    name_bound : length n ≤ m
    glob_bound : length g < k
    fuel : m * k + length g < f

  Stands-byte :
      (m : ℕ) (g r n : Text) (c : ℕ) (s : Star) → Item g r → Stands m g (c ∷ n) s → Stands m r n s
  Stands-byte m g r n c none i h = λ q. byte_inv g r n c i (h q)
  Stands-byte m g r n c (some (h, o)) i (asks, down, short, bound, small, plain) =
      (asks, λ d. byte_inv g r n c i (down d), omega (arith, short), bound, small, plain)

  Running-consumed :
      (f m : ℕ) (g r n : Text) (c : ℕ) (s : Star)
      → Takes g c r
      → Running (suc f) m g (c ∷ n) s
      → Running f m r n s
  Running-consumed f m g r n c s t v =
      let i = Takes-Item g r c t in
      let shorter = length-Takes g r c t in
      record {
        enough = λ d. v.enough (byte g n r c t d);
        needed = λ q. star_over g r n c i (v.needed q);
        stands = Stands-byte m g r n c s i v.stands;
        plain = v.plain.1;
        name_bound = omega (arith, v.name_bound);
        glob_bound = omega (arith, v.glob_bound, shorter);
        fuel = omega (arith, v.fuel, shorter);
      }

  -- From a star on, the question is what the star and the rest mean.
  Running-star :
      (f m : ℕ) (g n : Text)
      → G ↔ Fits (star ∷ g) n
      → All IsPlain n
      → length n ≤ m
      → length g < k
      → m * k + length g < f
      → Running f m g n (some (g, n))
  Running-star f m g n asks plain short small fuel = record {
    enough = λ d. asks.1 (leave (star ∷ g) n g refl d);
    needed = asks.0;
    stands = (asks, λ d. d, omega arith, short, small, plain);
    plain = plain;
    name_bound = short;
    glob_bound = small;
    fuel = fuel;
  }

  -- A byte that does not fit goes to the last star.
  stuck-Answers :
      (f m : ℕ) (g n : Text) (c : ℕ) (s : Star) (next : Round)
      → ((m' : ℕ) (g' n' : Text) (s' : Star) → Running f m' g' n' s' → Answers G (next g' n' s'))
      → Running (suc f) m g (c ∷ n) s
      → ¬ Fits g (c ∷ n)
      → Answers G (act stuck c n s next)
  unfolding act
  stuck-Answers f m g n c none next ih v misfit = λ q. misfit (v.stands q)
  stuck-Answers f m g n c (some (h, [])) next ih v misfit = absurd (omega (arith, v.stands.2))
  stuck-Answers f zero g n c (some (h, b ∷ o)) next ih v misfit = absurd (omega (arith, v.stands.3))
  stuck-Answers f (suc m) g n c (some (h, b ∷ o)) next ih v misfit =
      let (asks, down, _, bound, small, plain) = v.stands in
      ih m h o (some (h, o)) (
        Running-star f m h o
          (
            λ q. star_passes h o b (asks.0 q) (λ d. misfit (down d)),
            λ d. asks.1 (more (star ∷ h) o h b refl d),
          )
          plain.1 (omega (arith, bound)) small (grind (arith, v.fuel, small)))

  act-Answers :
      (f m : ℕ) (mv : Move) (g n : Text) (c : ℕ) (s : Star) (next : Round)
      → Means g c mv
      → ((m' : ℕ) (g' n' : Text) (s' : Star) → Running f m' g' n' s' → Answers G (next g' n' s'))
      → Running (suc f) m g (c ∷ n) s
      → Answers G (act mv c n s next)
  unfolding act
  act-Answers f m (consumed r) g n c s next t ih v = ih m r n s (Running-consumed f m g r n c s t v)
  act-Answers f m (begun r) g n c s next e ih v = ih m r (c ∷ n) (some (r, c ∷ n)) (
      Running-star f m r (c ∷ n)
        (
          λ q. two_stars r (c ∷ n) (subst (λ z. Fits (star ∷ z) (c ∷ n)) e (v.needed q)),
          λ d. v.enough (subst (λ z. Fits z (c ∷ n)) (sym e) d),
        )
        v.plain v.name_bound (omega (arith, v.glob_bound, ap length e))
        (omega (arith, v.fuel, ap length e)))
  act-Answers f m unclosed g n c s next u ih v = λ q. Unclosed-star g (c ∷ n) u (v.needed q)
  act-Answers f m stuck g n c s next (not_star, not_taken) ih v =
      stuck-Answers f m g n c s next ih v (nothing_first g n c not_star not_taken)

  segment_loop-Answers :
      (f m : ℕ) (g n : Text) (s : Star) → Running f m g n s → Answers G (segment_loop f g n s)
  unfolding segment_loop
  segment_loop-Answers zero m g n s v = absurd (omega (arith, v.fuel))
  segment_loop-Answers (suc f) m g [] s v =
      Answers-iff G (only_stars g) (
        λ h. v.enough ((only_stars_iff g).0 h),
        λ q. (only_stars_iff g).1 (star_end g (v.needed q)),
      )
  segment_loop-Answers (suc f) m g (c ∷ n) s v =
      act-Answers f m (next_move g c) g n c s (segment_loop f) (next_move-Means g c v.plain.0)
        (segment_loop-Answers f) v

answer-Answers : (G : Type 0) (o : Option Bool) → Answers G o → (o ≢ none) × ((answer o ≡ true) ↔ G)
answer-Answers G none h = absurd h
answer-Answers G (some true) h = (λ e. cc e, (λ e. h, λ q. refl))
answer-Answers G (some false) h = (λ e. cc e, (λ e. cc e, λ q. absurd (h q)))

Running-start :
    (g n : Text)
    → All IsPlain n
    → Running (Fits g n) (length g + 1) (segment_fuel g n) (length n) g n none
Running-start g n plain = record {
  enough = λ d. d;
  needed = λ q. leave (star ∷ g) n g refl q;
  stands = λ q. q;
  plain = plain;
  name_bound = omega arith;
  glob_bound = omega arith;
  fuel = grind arith;
}

-- For a name without a star and without an opening bracket, the matching of a glob ends within
-- its fuel, and its answer is true exactly when the glob means the name, read item by item from
-- the left.
pub match_segment-Fits :
    (g n : Text)
    → All IsPlain n
    → (segment_loop (segment_fuel g n) g n none ≢ none) × ((match_segment g n ≡ true) ↔ Fits g n)
unfolding match_segment
match_segment-Fits g n plain =
    answer-Answers (Fits g n) (segment_loop (segment_fuel g n) g n none) (
      segment_loop-Answers (Fits g n) (length g + 1) (segment_fuel g n) (length n) g n none
        (Running-start g n plain))

every_name : (n : Text) → Fits (star ∷ []) n
every_name [] = leave (star ∷ []) [] [] refl end
every_name (c ∷ n) = more (star ∷ []) n [] c refl (every_name n)

stars_stuck :
    (f c : ℕ) (n : Text) → segment_loop (suc (suc f)) (star ∷ []) (star ∷ c ∷ n) none ≡ some false
unfolding segment_loop
stars_stuck f c n = refl

-- The glob of one star does not match a name of two bytes or more that begins with a star,
-- although it means that name.
pub star_name_missed :
    (c : ℕ) (n : Text)
    → (match_segment (star ∷ []) (star ∷ c ∷ n) ≡ false) × Fits (star ∷ []) (star ∷ c ∷ n)
unfolding match_segment
star_name_missed c n =
    let fuel : segment_fuel (star ∷ []) (star ∷ c ∷ n) ≡ suc (suc (2 * length n + 4)) =
      omega arith in
    (
      ap answer (
          ap (λ f. segment_loop f (star ∷ []) (star ∷ c ∷ n) none) fuel
          ∙ stars_stuck (2 * length n + 4) c n),
      every_name (star ∷ c ∷ n),
    )
