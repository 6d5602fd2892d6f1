-- ===== src/Prelude/Maps.antt =====
-- Go's maps with string keys, as association lists with one pair for each key.
use mathlib.Core.Path.{◌≡◌, refl}
use mathlib.Core.Logic.{◌≢◌, inl, inr}
use mathlib.Core.Bool.{Bool}
use mathlib.Core.Option.{Option, none, some}
use mathlib.Core.List.{List, [], ◌∷◌}
use native.Mathlib.Omega.{arith}
use lctk.Prelude.Tests.{if◌then◌else◌, Bool-cases}
use lctk.Prelude.Lists.{All}
use lctk.Prelude.Texts.{Text, text_eq, text_eq_iff}

module _ {ℓ} {V : Type ℓ} where
  unfoldable pub lookup : Text → List (Text × V) → Option V
  lookup k [] = none
  lookup k ((j, v) ∷ m) = if text_eq j k then some v else lookup k m

  -- delete(m, k).
  unfoldable pub delete : Text → List (Text × V) → List (Text × V)
  delete k [] = []
  delete k ((j, v) ∷ m) = if text_eq j k then delete k m else (j, v) ∷ delete k m

  -- m[k] = v.
  unfoldable pub insert : Text → V → List (Text × V) → List (Text × V)
  unfolding delete
  insert k v m = (k, v) ∷ delete k m

  -- What is left when the pairs that fail a test are deleted.
  unfoldable pub keep : (V → Bool) → List (Text × V) → List (Text × V)
  keep p [] = []
  keep p ((j, v) ∷ m) = if p v then (j, v) ∷ keep p m else keep p m

  pub lookup-delete :
      (k j : Text) (m : List (Text × V))
      → lookup j (delete k m) ≡ (if text_eq k j then none else lookup j m)
  unfolding lookup delete
  lookup-delete k j [] = ground arith
  lookup-delete k j ((i, v) ∷ m) =
      ground (arith, text_eq_iff i k, text_eq_iff i j, text_eq_iff k j, lookup-delete k j m)

  pub lookup-insert :
      (k j : Text) (v : V) (m : List (Text × V))
      → lookup j (insert k v m) ≡ (if text_eq k j then some v else lookup j m)
  unfolding lookup insert
  lookup-insert k j v m = ground (arith, lookup-delete k j m)

module _ {V : Type 0} where
  abbrev pub Missing : Text → List (Text × V) → Type 0
  Missing k = All (λ p. p.0 ≢ k)

  -- No key stands twice.
  abbrev pub HasKeys : List (Text × V) → Type 0
  HasKeys [] = Unit {0}
  HasKeys ((k, v) ∷ m) = Missing k m × HasKeys m

  Missing-delete : (k j : Text) (m : List (Text × V)) → Missing j m → Missing j (delete k m)
  unfolding delete
  Missing-delete k j [] h = tt
  Missing-delete k j ((i, v) ∷ m) h = ground (arith, Missing-delete k j m h.1)

  Missing-delete_self : (k : Text) (m : List (Text × V)) → Missing k (delete k m)
  unfolding delete
  Missing-delete_self k [] = tt
  Missing-delete_self k ((i, v) ∷ m) = ground (arith, text_eq_iff i k, Missing-delete_self k m)

  pub delete-HasKeys : (k : Text) (m : List (Text × V)) → HasKeys m → HasKeys (delete k m)
  unfolding delete
  delete-HasKeys k [] h = tt
  delete-HasKeys k ((i, v) ∷ m) h = ground (arith, Missing-delete k i m h.0, delete-HasKeys k m h.1)

  pub insert-HasKeys : (k : Text) (v : V) (m : List (Text × V)) → HasKeys m → HasKeys (insert k v m)
  unfolding insert
  insert-HasKeys k v m h = (Missing-delete_self k m, delete-HasKeys k m h)

  Missing-keep :
      (p : V → Bool) (k : Text) (m : List (Text × V)) → Missing k m → Missing k (keep p m)
  unfolding keep
  Missing-keep p k [] h = tt
  Missing-keep p k ((i, v) ∷ m) h = ground (arith, Missing-keep p k m h.1)

  pub keep-HasKeys : (p : V → Bool) (m : List (Text × V)) → HasKeys m → HasKeys (keep p m)
  unfolding keep
  keep-HasKeys p [] h = tt
  keep-HasKeys p ((i, v) ∷ m) h = ground (arith, Missing-keep p i m h.0, keep-HasKeys p m h.1)

  pub lookup-Missing : (k : Text) (m : List (Text × V)) → Missing k m → lookup k m ≡ none
  unfolding lookup
  lookup-Missing k [] h = refl
  lookup-Missing k ((i, v) ∷ m) h = ground (arith, text_eq_iff i k, lookup-Missing k m h.1)

  lookup-gone :
      (p : V → Bool) (i k : Text) (m : List (Text × V))
      → i ≡ k
      → Missing i m
      → lookup k (keep p m) ≡ none
  lookup-gone p i k m e h = lookup-Missing k (keep p m) (Missing-keep p k m (rw (← e) h))

  abbrev pub passing : (V → Bool) → Option V → Option V
  passing p none = none
  passing p (some v) = if p v then some v else none

  -- Looking up after the deletion is looking up and testing what was found.
  pub lookup-keep :
      (p : V → Bool) (k : Text) (m : List (Text × V))
      → HasKeys m
      → lookup k (keep p m) ≡ passing p (lookup k m)
  unfolding lookup keep
  lookup-keep p k [] h = refl
  lookup-keep p k ((i, v) ∷ m) h = elim (Bool-cases (text_eq i k)) [
    | inl same ↦
        let gone = lookup-gone p i k m ((text_eq_iff i k).0 same) h.0 in
        rw same (ground (arith, same, gone))
    | inr other ↦ ground (arith, other, lookup-keep p k m h.1)
  ]
