-- ===== src/Glob/Paths.antt =====
-- matchSegments and matchGlob against the meaning of a path of globs.
use lctk.Prelude.{
  ℕ, zero, suc, ◌<◌, ◌≡◌, ◌≢◌, refl, ◌⊎◌, inl, inr, ◌↔◌, Bool, Bool-cases, true, ◌&&◌, List, [],
  ◌∷◌, Text, text_eq, text_eq_iff, split, onto_first, arith, ◌==◌, length, take, All, ltb,
}
use lctk.Glob.{any_segments, match_segment, match_segments, match_glob, some_suffix}
use lctk.Glob.Segment.{Fits, IsPlain}
use lctk.Glob.Segment.Search.{match_segment-Fits}

-- The globs of a rule cover the segments of a path: a double star any number of them, another glob
-- the one that it means.
pub data Covers : List Text → List Text → Type 0 where
  done : Covers [] []
  leave : (g : Text) (gs ps : List Text) → g ≡ any_segments → Covers gs ps → Covers (g ∷ gs) ps
  more :
      (g p : Text) (gs ps : List Text)
      → g ≡ any_segments
      → Covers (g ∷ gs) ps
      → Covers (g ∷ gs) (p ∷ ps)
  one :
      (g p : Text) (gs ps : List Text)
      → g ≢ any_segments
      → Fits g p
      → Covers gs ps
      → Covers (g ∷ gs) (p ∷ ps)

abbrev pub ArePlain : List Text → Type 0
ArePlain = All (All IsPlain)

Covers-nil : (g : Text) (gs : List Text) → g ≡ any_segments → Covers (g ∷ gs) [] → Covers gs []
Covers-nil g gs e (leave _ _ _ _ d) = d

Covers-any :
    (g p : Text) (gs ps : List Text)
    → g ≡ any_segments
    → Covers (g ∷ gs) (p ∷ ps)
    → Covers gs (p ∷ ps) ⊎ Covers (g ∷ gs) ps
Covers-any g p gs ps e (leave _ _ _ _ d) = inl d
Covers-any g p gs ps e (more _ _ _ _ _ d) = inr d
Covers-any g p gs ps e (one _ _ _ _ ne _ _) = absurd (ne e)

Covers-one :
    (g p : Text) (gs ps : List Text)
    → g ≢ any_segments
    → Covers (g ∷ gs) (p ∷ ps)
    → Fits g p × Covers gs ps
Covers-one g p gs ps ne (leave _ _ _ e _) = absurd (ne e)
Covers-one g p gs ps ne (more _ _ _ _ e _) = absurd (ne e)
Covers-one g p gs ps ne (one _ _ _ _ _ f d) = (f, d)

Covers-none : (g : Text) (gs : List Text) → g ≢ any_segments → ¬ Covers (g ∷ gs) []
Covers-none g gs ne (leave _ _ _ e _) = ne e

and_iff : (a b : Bool) → ((a && b) ≡ true) ↔ ((a ≡ true) × (b ≡ true))
and_iff a b = (λ h. ground (arith, h), λ h. ground (arith, h))

-- A double star, by the suffixes of the path.
some_suffix-Covers :
    (test : List Text → Bool) (g : Text) (gs ps : List Text)
    → g ≡ any_segments
    → ((qs : List Text) → ArePlain qs → (test qs ≡ true) ↔ Covers gs qs)
    → ArePlain ps
    → (some_suffix test ps ≡ true) ↔ Covers (g ∷ gs) ps
unfolding some_suffix
some_suffix-Covers test g gs [] e h plain =
    (λ t. leave g gs [] e ((h [] tt).0 t), λ d. (h [] tt).1 (Covers-nil g gs e d))
some_suffix-Covers test g gs (p ∷ ps) e h plain =
    let here = h (p ∷ ps) plain in
    let rest = some_suffix-Covers test g gs ps e h plain.1 in
    (
      λ t. elim (Bool-cases (test (p ∷ ps))) [
        | inl now ↦ leave g gs (p ∷ ps) e (here.0 now)
        | inr later ↦ more g p gs ps e (rest.0 (ground (arith, t, later)))
      ],
      λ d. elim (Covers-any g p gs ps e d) [
        | inl now ↦ ground (arith, here.1 now)
        | inr later ↦ ground (arith, rest.1 later)
      ],
    )

pub match_segments-Covers :
    (gs ps : List Text) → ArePlain ps → (match_segments gs ps ≡ true) ↔ Covers gs ps
unfolding match_segments
match_segments-Covers [] [] plain = (λ h. done, λ d. refl)
match_segments-Covers [] (p ∷ ps) plain = (λ h. cc h, λ d. elim d [ ])
match_segments-Covers (g ∷ gs) [] plain = elim (Bool-cases (text_eq g any_segments)) [
  | inl any ↦
      let e = (text_eq_iff g any_segments).0 any in
      rw any (some_suffix-Covers (match_segments gs) g gs [] e (match_segments-Covers gs) plain)
  | inr other ↦
      let ne : g ≢ any_segments = ground (arith, other, text_eq_iff g any_segments) in
      rw other (λ h. cc h, λ d. absurd (Covers-none g gs ne d))
]
match_segments-Covers (g ∷ gs) (p ∷ ps) plain = elim (Bool-cases (text_eq g any_segments)) [
  | inl any ↦
      let e = (text_eq_iff g any_segments).0 any in
      rw any
        (some_suffix-Covers (match_segments gs) g gs (p ∷ ps) e (match_segments-Covers gs) plain)
  | inr other ↦
      let ne : g ≢ any_segments = ground (arith, other, text_eq_iff g any_segments) in
      let fits = (match_segment-Fits g p plain.0).1 in
      let rest = match_segments-Covers gs ps plain.1 in
      rw other (
        λ h.
            let (now, later) = (and_iff (match_segment g p) (match_segments gs ps)).0 h in
            one g p gs ps ne (fits.0 now) (rest.0 later),
        λ d.
            let (now, later) = Covers-one g p gs ps ne d in
            (and_iff (match_segment g p) (match_segments gs ps)).1 (fits.1 now, rest.1 later),
      )
]

onto_first-ArePlain :
    (x : ℕ) (ps : List Text) → IsPlain x → ArePlain ps → ArePlain (onto_first x ps)
onto_first-ArePlain x [] p plain = ((p, tt), tt)
onto_first-ArePlain x (q ∷ ps) p plain = ((p, plain.0), plain.1)

split-ArePlain : (s : Text) → All IsPlain s → ArePlain (split b'/' s)
unfolding split
split-ArePlain [] plain = (tt, tt)
split-ArePlain (x ∷ s) plain = elim (Bool-cases (x == b'/')) [
  | inl cut_here ↦ rw cut_here (tt, split-ArePlain s plain.1)
  | inr inside ↦ rw inside (onto_first-ArePlain x (split b'/' s) plain.0 (split-ArePlain s plain.1))
]

take-ArePlain : (n : ℕ) (ps : List Text) → ArePlain ps → ArePlain (take n ps)
take-ArePlain zero ps plain = tt
take-ArePlain (suc n) [] plain = tt
take-ArePlain (suc n) (p ∷ ps) plain = (plain.0, take-ArePlain n ps plain.1)

-- For a path without a star and without an opening bracket, a glob matches exactly when it is the
-- double star, or its segments cover the path's, or the path is longer and they cover as many of
-- its first segments as they are. A double star covers any number of segments, another glob the
-- one that it means.
pub match_glob-Covers :
    (glob subject : Text)
    → All IsPlain subject
    → let gs = split b'/' glob in
      let ps = split b'/' subject in
      (match_glob glob subject ≡ true) ↔ (
        (glob ≡ any_segments)
        ⊎ Covers gs ps
        ⊎ ((length gs < length ps) × Covers gs (take (length gs) ps)))
unfolding match_glob
match_glob-Covers glob subject plain =
    let gs = split b'/' glob in
    let ps = split b'/' subject in
    let parts = split-ArePlain subject plain in
    let whole = match_segments-Covers gs ps parts in
    let front =
      match_segments-Covers gs (take (length gs) ps) (take-ArePlain (length gs) ps parts) in
    (
      λ h. elim (Bool-cases (text_eq glob any_segments)) [
        | inl any ↦ inl ((text_eq_iff glob any_segments).0 any)
        | inr other ↦ elim (Bool-cases (match_segments gs ps)) [
          | inl now ↦ inr (inl (whole.0 now))
          | inr not_whole ↦
              let (longer, ahead) =
                (and_iff (ltb (length gs) (length ps)) (match_segments gs (take (length gs) ps))).0
                  (ground (arith, h, other, not_whole)) in
              inr (inr (ground (arith, longer), front.0 ahead))
        ]
      ],
      λ c. elim c [
        | inl e ↦ ground (arith, (text_eq_iff glob any_segments).1 e)
        | inr (inl d) ↦ ground (arith, whole.1 d)
        | inr (inr (longer, d)) ↦ ground (arith, longer, front.1 d)
      ],
    )
