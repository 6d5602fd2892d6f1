-- ===== src/Status/Splitting.antt =====
-- What strings.Split and strings.SplitN make of joined fields.
use lctk.Prelude.{
  split, ℕ, zero, suc, ◌≡◌, refl, append_nil, ap, ◌∙◌, false, ◌==◌, List, [], ◌∷◌, ◌++◌, Text, All,
  length,
}
use lctk.Status.{split_n, trim_suffix}

abbrev pub Lacks : ℕ → Text → Type 0
Lacks c t = All (λ x. (x == c) ≡ false) t

-- Fields with a space after each, before a last one.
abbrev pub fixed_then : List Text → Text → Text
fixed_then [] p = p
fixed_then (f ∷ fs) p = f ++ 32 ∷ fixed_then fs p

split_n-field :
    (n : ℕ) (f p : Text)
    → Lacks 32 f
    → split_n 32 (suc (suc n)) (f ++ 32 ∷ p) ≡ f ∷ split_n 32 (suc n) p
unfolding split_n
split_n-field n [] p l = refl
split_n-field n (x ∷ f) p l = rw (l.0, split_n-field n f p l.1) refl

split_n-last : (n : ℕ) (f : Text) → Lacks 32 f → split_n 32 (suc n) f ≡ f ∷ []
unfolding split_n
split_n-last zero f l = refl
split_n-last (suc n) [] l = refl
split_n-last (suc n) (x ∷ f) l = rw (l.0, split_n-last (suc n) f l.1) refl

pub split_n-fixed :
    (fs : List Text) (p : Text)
    → All (Lacks 32) fs
    → split_n 32 (suc (length fs)) (fixed_then fs p) ≡ fs ++ p ∷ []
unfolding split_n
split_n-fixed [] p l = refl
split_n-fixed (f ∷ fs) p l =
    rw (split_n-field (length fs) f (fixed_then fs p) l.0, split_n-fixed fs p l.1) refl

pub split_n-short :
    (fs : List Text) (p : Text)
    → All (Lacks 32) fs
    → Lacks 32 p
    → split_n 32 (suc (suc (length fs))) (fixed_then fs p) ≡ fs ++ p ∷ []
split_n-short [] p l m = split_n-last 1 p m
split_n-short (f ∷ fs) p l m =
    rw (split_n-field (suc (length fs)) f (fixed_then fs p) l.0, split_n-short fs p l.1 m) refl

-- The fields as git writes them with -z, each before a NUL.
abbrev pub terminated : List Text → Text
terminated [] = []
terminated (f ∷ fs) = f ++ 0 ∷ terminated fs

joined : Text → List Text → Text
joined f [] = f
joined f (g ∷ fs) = f ++ 0 ∷ joined g fs

trim_suffix-append : (s t : Text) (y : ℕ) → trim_suffix 0 (s ++ y ∷ t) ≡ s ++ trim_suffix 0 (y ∷ t)
unfolding trim_suffix
trim_suffix-append [] t y = refl
trim_suffix-append (x ∷ []) t y = refl
trim_suffix-append (x ∷ z ∷ s) t y = ap (λ r. x ∷ r) (trim_suffix-append (z ∷ s) t y)

trim_suffix-inside :
    (g t : Text) (x : ℕ) → trim_suffix 0 (x ∷ g ++ 0 ∷ t) ≡ x ∷ trim_suffix 0 (g ++ 0 ∷ t)
unfolding trim_suffix
trim_suffix-inside [] t x = refl
trim_suffix-inside (y ∷ g) t x = refl

trim_suffix-joined : (f : Text) (fs : List Text) → trim_suffix 0 (terminated (f ∷ fs)) ≡ joined f fs
unfolding trim_suffix joined
trim_suffix-joined f [] = trim_suffix-append f [] 0 ∙ append_nil f
trim_suffix-joined f (g ∷ fs) =
    trim_suffix-append f (terminated (g ∷ fs)) 0
    ∙ ap (λ t. f ++ t)
        (trim_suffix-inside g (terminated fs) 0 ∙ ap (λ t. 0 ∷ t) (trim_suffix-joined g fs))

split-joined : (f : Text) (fs : List Text) → All (Lacks 0) (f ∷ fs) → split 0 (joined f fs) ≡ f ∷ fs
unfolding split joined
split-joined [] [] l = refl
split-joined (x ∷ f) [] l = rw (l.0.0, split-joined f [] (l.0.1, tt)) refl
split-joined [] (g ∷ fs) l = rw (split-joined g fs l.1) refl
split-joined (x ∷ f) (g ∷ fs) l = rw (l.0.0, split-joined f (g ∷ fs) (l.0.1, l.1)) refl

pub split-terminated :
    (f : Text) (fs : List Text)
    → All (Lacks 0) (f ∷ fs)
    → split 0 (trim_suffix 0 (terminated (f ∷ fs))) ≡ f ∷ fs
split-terminated f fs l = rw (trim_suffix-joined f fs) (split-joined f fs l)
