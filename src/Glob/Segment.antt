-- ===== src/Glob/Segment.antt =====
-- matchSegment against the meaning of a glob.
pub mod Search
use lctk.Prelude.{
  ℕ, zero, suc, ◌+◌, ◌≤◌, ◌<◌, ◌≡◌, ◌≢◌, refl, ap, sym, ◌∙◌, subst, ◌⊎◌, inl, inr, ◌↔◌, Bool,
  Bool-cases, true, false, Option, none, some, List, [], ◌∷◌, Text, cut, arith, ◌==◌,
}
use lctk.Glob.{
  Move, consumed, begun, unclosed, stuck, star, question, bracket, next_move, class_move,
  match_class, only_stars,
}

-- The first item of a glob takes a byte, and a rest of the glob is left.
abbrev pub Takes : Text → ℕ → Text → Type 0
Takes [] c r = ⊥
Takes (x ∷ g) c r =
    ((x ≡ question) × (r ≡ g))
    ⊎ ((x ≢ star) × (x ≢ question) × (x ≢ bracket) × (x ≡ c) × (r ≡ g))
    ⊎ ((x ≡ bracket)
        × (class : Text) × (cut b']' g ≡ some (class, r))
        × (match_class class c ≡ true))

-- A glob and a name that it means, read from the left.
pub data Fits : Text → Text → Type 0 where
  end : Fits [] []
  leave : (g n r : Text) → g ≡ star ∷ r → Fits r n → Fits g n
  more : (g n r : Text) (c : ℕ) → g ≡ star ∷ r → Fits g n → Fits g (c ∷ n)
  byte : (g n r : Text) (c : ℕ) → Takes g c r → Fits r n → Fits g (c ∷ n)

-- A byte that is neither a star nor an opening bracket.
abbrev pub IsPlain : ℕ → Type 0
IsPlain c = (c ≢ star) × (c ≢ bracket)

abbrev pub Unclosed : Text → Type 0
Unclosed [] = ⊥
Unclosed (x ∷ g) = (x ≡ bracket) × (cut b']' g ≡ none)

-- What each move says of the glob.
abbrev pub Means : Text → ℕ → Move → Type 0
Means g c (consumed r) = Takes g c r
Means g c (begun r) = g ≡ star ∷ r
Means g c unclosed = Unclosed g
Means g c stuck = ((r : Text) → g ≢ star ∷ r) × ((r : Text) → ¬ Takes g c r)

-- A class that leaves a byte out does not take it.
bracket-Takes :
    (x c : ℕ) (g class r r' : Text)
    → x ≡ bracket
    → cut b']' g ≡ some (class, r)
    → match_class class c ≡ false
    → ¬ Takes (x ∷ g) c r'
bracket-Takes x c g class r r' b e not_in (inl (q, _)) = omega (arith, b, q)
bracket-Takes x c g class r r' b e not_in (inr (inl (_, _, nb, _, _))) = nb b
bracket-Takes x c g class r r' b e not_in (inr (inr (_, k, e', fits))) =
    let same : k ≡ class = cc (e, e') in ground (arith, not_in, rw same at fits)

-- Neither does a byte that differs from it.
no_match-Takes :
    (x c : ℕ) (g r : Text)
    → (x == question) ≡ false
    → (x == c) ≡ false
    → (x == bracket) ≡ false
    → ¬ Takes (x ∷ g) c r
no_match-Takes x c g r other differs nb (inl (q, _)) = ground (arith, other, q)
no_match-Takes x c g r other differs nb (inr (inl (_, _, _, same, _))) =
    ground (arith, differs, same)
no_match-Takes x c g r other differs nb (inr (inr (b, _, _, _))) = ground (arith, nb, b)

class_move-Means :
    (o : Option (Text × Text)) (x c : ℕ) (g : Text)
    → x ≡ bracket
    → cut b']' g ≡ o
    → Means (x ∷ g) c (class_move o c)
unfolding class_move
class_move-Means none x c g b e = (b, e)
class_move-Means (some (class, r)) x c g b e = elim (Bool-cases (match_class class c)) [
  | inl fits ↦ rw fits (inr (inr (b, class, e, fits)))
  | inr not_in ↦
      rw not_in
        (λ r' e'. ground (arith, e', b), λ r' t. bracket-Takes x c g class r r' b e not_in t)
]

pub next_move-Means : (g : Text) (c : ℕ) → IsPlain c → Means g c (next_move g c)
unfolding next_move
next_move-Means [] c p = (λ r e. cc e, λ r t. t)
next_move-Means (x ∷ g) c p = elim (Bool-cases (x == question)) [
  | inl q ↦ rw q (inl (ground (arith, q), refl))
  | inr other ↦ elim (Bool-cases (x == c)) [
    | inl same ↦
        rw (other, same)
          (inr (
            inl (
              ground (arith, same, other, p),
              ground (arith, other),
              ground (arith, same, p),
              ground (arith, same),
              refl,
            )))
    | inr differs ↦ elim (Bool-cases (x == bracket)) [
      | inl b ↦
          rw (other, differs, b) (class_move-Means (cut b']' g) x c g (ground (arith, b)) refl)
      | inr not_bracket ↦ elim (Bool-cases (x == star)) [
        | inl s ↦ rw (other, differs, not_bracket, s) (ap (λ y. y ∷ g) (ground (arith, s)))
        | inr not_star ↦
            rw (other, differs, not_bracket, not_star)
              (
                λ r e. ground (arith, not_star, e),
                λ r t. no_match-Takes x c g r other differs not_bracket t,
              )
      ]
    ]
  ]
]

-- The first item takes a byte of some kind, and this rest of the glob is left.
abbrev pub Item : Text → Text → Type 0
Item [] r = ⊥
Item (x ∷ g) r =
    ((x ≢ star) × (x ≢ bracket) × (r ≡ g))
    ⊎ ((x ≡ bracket) × (class : Text) × (cut b']' g ≡ some (class, r)))

pub Takes-Item : (g r : Text) (c : ℕ) → Takes g c r → Item g r
Takes-Item [] r c t = t
Takes-Item (x ∷ g) r c (inl (q, e)) = inl (omega (arith, q), omega (arith, q), e)
Takes-Item (x ∷ g) r c (inr (inl (ns, _, nb, _, e))) = inl (ns, nb, e)
Takes-Item (x ∷ g) r c (inr (inr (b, k, e, _))) = inr (b, k, e)

Item-unique : (g r r' : Text) → Item g r → Item g r' → r ≡ r'
Item-unique [] r r' i j = absurd i
Item-unique (x ∷ g) r r' (inl (_, nb, e)) (inl (_, _, e')) = e ∙ sym e'
Item-unique (x ∷ g) r r' (inl (_, nb, _)) (inr (b, _, _)) = absurd (nb b)
Item-unique (x ∷ g) r r' (inr (b, _, _)) (inl (_, nb, _)) = absurd (nb b)
Item-unique (x ∷ g) r r' (inr (_, k, e)) (inr (_, k', e')) = cc (e, e')

Item-star : (g r q : Text) → Item g r → g ≢ star ∷ q
Item-star [] r q i e = cc e
Item-star (x ∷ g) r q (inl (ns, _, _)) e = ns (cc e)
Item-star (x ∷ g) r q (inr (b, _, _)) e = ground (arith, b, e)

-- A glob that begins with an item that takes a byte.
pub byte_inv : (g r n : Text) (c : ℕ) → Item g r → Fits g (c ∷ n) → Fits r n
byte_inv g r n c i (leave _ _ q e f) = absurd (Item-star g r q i e)
byte_inv g r n c i (more _ _ q _ e f) = absurd (Item-star g r q i e)
byte_inv g r n c i (byte _ _ q _ t f) =
    subst (λ z. Fits z n) (Item-unique g q r (Takes-Item g q c t) i) f

pub Item-end : (g r : Text) → Item g r → ¬ Fits g []
Item-end [] r i f = i
Item-end (x ∷ g) r i (leave _ _ q e f) = Item-star (x ∷ g) r q i e

-- A star takes nothing, or a byte more.
pub star_inv :
    (r n : Text)
    → Fits (star ∷ r) n
    → Fits r n ⊎ ((c : ℕ) × (m : Text) × (n ≡ c ∷ m) × Fits (star ∷ r) m)
star_inv r n (leave _ _ q e f) = inl (subst (λ z. Fits z n) (cc e) f)
star_inv r n (more _ m q c e f) = inr (c, m, refl, f)
star_inv r n (byte _ m q c t f) =
    absurd (Item-star (star ∷ r) q r (Takes-Item (star ∷ r) q c t) refl)

pub star_end : (r : Text) → Fits (star ∷ r) [] → Fits r []
star_end r f = elim (star_inv r [] f) [ inl g ↦ g | inr (c, m, e, g) ↦ cc e ]

-- A star followed by an item: the item takes a byte somewhere, and the star can take it too.
pub star_over : (g r n : Text) (c : ℕ) → Item g r → Fits (star ∷ g) (c ∷ n) → Fits (star ∷ r) n
star_over g r [] c i f = elim (star_inv g (c ∷ []) f) [
  | inl now ↦ leave (star ∷ r) [] r refl (byte_inv g r [] c i now)
  | inr (d, m, e, later) ↦
      let at_end : Fits (star ∷ g) [] = subst (λ z. Fits (star ∷ g) z) (cc e) later in
      absurd (Item-end g r i (star_end g at_end))
]
star_over g r (d ∷ n) c i f = elim (star_inv g (c ∷ d ∷ n) f) [
  | inl now ↦ leave (star ∷ r) (d ∷ n) r refl (byte_inv g r (d ∷ n) c i now)
  | inr (b, m, e, later) ↦
      let rest : Fits (star ∷ g) (d ∷ n) = subst (λ z. Fits (star ∷ g) z) (cc e) later in
      more (star ∷ r) n r d refl (star_over g r n d i rest)
]

-- Two stars mean what one means.
pub two_stars : (g n : Text) → Fits (star ∷ star ∷ g) n → Fits (star ∷ g) n
two_stars g [] f = star_end (star ∷ g) f
two_stars g (c ∷ n) f = elim (star_inv (star ∷ g) (c ∷ n) f) [
  | inl now ↦ now
  | inr (b, m, e, later) ↦
      let rest : Fits (star ∷ star ∷ g) n = subst (λ z. Fits (star ∷ star ∷ g) z) (cc e) later in
      more (star ∷ g) n g c refl (two_stars g n rest)
]

-- A glob whose first class has no end means no name, also after a star.
pub Unclosed-Fits : (g n : Text) → Unclosed g → ¬ Fits g n
Unclosed-Fits [] n u f = u
Unclosed-Fits (x ∷ g) n (b, _) (leave _ _ q e f) = ground (arith, b, e)
Unclosed-Fits (x ∷ g) n (b, _) (more _ _ q c e f) = ground (arith, b, e)
Unclosed-Fits (x ∷ g) n (b, none_left) (byte _ _ q c t f) = elim (Takes-Item (x ∷ g) q c t) [
  | inl (_, nb, _) ↦ nb b
  | inr (_, k, e) ↦ cc (e, none_left)
]

pub Unclosed-star : (g n : Text) → Unclosed g → ¬ Fits (star ∷ g) n
Unclosed-star g [] u f = Unclosed-Fits g [] u (star_end g f)
Unclosed-star g (c ∷ n) u f = elim (star_inv g (c ∷ n) f) [
  | inl now ↦ Unclosed-Fits g (c ∷ n) u now
  | inr (b, m, e, later) ↦ Unclosed-star g n u (subst (λ z. Fits (star ∷ g) z) (cc e) later)
]

star_first : (x : ℕ) (g : Text) → Fits (x ∷ g) [] → (x ≡ star) × Fits g []
star_first x g (leave _ _ q e f) = (cc e, subst (λ z. Fits z []) (cc e) f)

pub only_stars_iff : (g : Text) → (only_stars g ≡ true) ↔ Fits g []
unfolding only_stars
only_stars_iff [] = (λ h. end, λ f. refl)
only_stars_iff (x ∷ g) = (
  λ h. leave (x ∷ g) [] g (ground (arith, h)) ((only_stars_iff g).0 (ground (arith, h))),
  λ f. let (s, rest) = star_first x g f in ground (arith, s, (only_stars_iff g).1 rest),
)
