-- ===== src/Inventory/Scope.antt =====
-- The paths that a caller may name: normalizeRelative of
-- images/code-intel/internal/searchindex/inventory.go, with path.Clean. An error is none.
use lctk.Prelude.{
  ℕ, ◌≡◌, ◌≢◌, ◌⊎◌, Bool, true, false, ◌&&◌, ◌||◌, Option, none, some, List, [], ◌∷◌, ◌++◌, Text,
  text, text_eq, trim_bytes, has_prefix, split, All, leb, ◌==◌, if◌then◌else◌,
}
use lctk.Ignore.{has, clean_stack}

unfoldable pub is_letter : ℕ → Bool
is_letter c = (leb b'a' c && leb c b'z') || (leb b'A' c && leb c b'Z')

-- looksAbsoluteWindows.
unfoldable pub looks_absolute_windows : Text → Bool
unfolding is_letter
looks_absolute_windows [] = false
looks_absolute_windows (c ∷ []) = false
looks_absolute_windows (c ∷ d ∷ s) = is_letter c && d == b':'

-- The elements of a path, the last first, with slashes between them.
unfoldable pub join_stack : List Text → Text
join_stack [] = []
join_stack (t ∷ []) = t
join_stack (t ∷ u ∷ us) = join_stack (u ∷ us) ++ (b'/' ∷ t)

unfoldable pub clean_text : Bool → List Text → Text
unfolding join_stack
clean_text true stack = b'/' ∷ join_stack stack
clean_text false [] = text "."
clean_text false (t ∷ ts) = join_stack (t ∷ ts)

-- path.Clean of a path that is not empty.
unfoldable pub clean : Text → Text
unfolding clean_text clean_stack
clean path =
    let rooted = has_prefix (text "/") path in
    clean_text rooted (clean_stack rooted [] (split b'/' path))

-- The switch of normalizeRelative.
unfoldable pub within : Text → Option Text
within cleaned =
    if has_prefix (text "/") cleaned
    then none
    else if text_eq cleaned (text ".") || text_eq cleaned (text "..")
    then none
    else if has_prefix (text "../") cleaned
    then none
    else some cleaned

-- normalizeRelative.
unfoldable pub normalize_relative : Text → Option Text
unfolding looks_absolute_windows clean within has
normalize_relative name =
    let trimmed = trim_bytes name in
    if text_eq trimmed []
    then none
    else if has 92 trimmed || looks_absolute_windows trimmed
    then none
    else within (clean trimmed)

-- An element that names something below the directory before it.
abbrev pub IsElement : Text → Type 0
IsElement t = (t ≢ []) × (t ≢ text ".") × (t ≢ text "..")

-- Elements, above nothing but parents.
abbrev IsStack : List Text → Type 0
IsStack [] = Unit
IsStack (t ∷ ts) = (IsElement t × IsStack ts) ⊎ ((t ≡ text "..") × All (λ u. u ≡ text "..") ts)

-- What the switch refuses as a way out.
abbrev LeadsOut : Text → Type 0
LeadsOut s = (s ≡ text "..") ⊎ (has_prefix (text "../") s ≡ true)
