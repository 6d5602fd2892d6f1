-- ===== src/Prelude/Texts.antt =====
-- Go's strings as lists of code points or of bytes, with the functions of package strings that the program
-- calls: equality, TrimSpace, HasPrefix, Split, Cut.
use Prim.Native.Nat.{ℕ, zero, suc, ◌+◌, ◌-◌, ◌/◌, ◌%◌}
use Prim.Native.Char.{code}
use Prim.Native.String.{String}
use mathlib.Core.Path.{◌≡◌, refl}
use mathlib.Core.Logic.{◌↔◌}
use mathlib.Core.Bool.{Bool, true, false, ◌&&◌, ◌||◌}
use mathlib.Core.Option.{Option, none, some}
use mathlib.Core.List.{List, [], ◌∷◌, reverse}
use native.Mathlib.Omega.{arith}
use lctk.Prelude.Tests.{leb, ltb, ◌==◌, if◌then◌else◌}

abbrev pub Text : Type 0
Text = List ℕ

-- The code points of a literal. `String` has its own `[]` and `∷`.
abbrev pub text : String → Text
text String.[] = []
text (String.◌∷◌ c s) = code c ∷ text s

unfoldable pub text_eq : Text → Text → Bool
text_eq [] [] = true
text_eq (x ∷ xs) (y ∷ ys) = x == y && text_eq xs ys
text_eq _ _ = false

text_eq_sound : (s t : Text) → text_eq s t ≡ true → s ≡ t
unfolding text_eq
text_eq_sound [] [] h = refl
text_eq_sound [] (y ∷ ys) h = cc
text_eq_sound (x ∷ xs) [] h = cc
text_eq_sound (x ∷ xs) (y ∷ ys) h = ground (arith, text_eq_sound xs ys)

text_eq_self : (s : Text) → text_eq s s ≡ true
unfolding text_eq
text_eq_self [] = refl
text_eq_self (x ∷ xs) = ground (arith, text_eq_self xs)

pub text_eq_iff : (s t : Text) → (text_eq s t ≡ true) ↔ (s ≡ t)
text_eq_iff s t = (text_eq_sound s t, λ e. rw e (text_eq_self t))

pub text_eq_refl : (s : Text) → text_eq s s ≡ true
text_eq_refl s = text_eq_self s

-- unicode.IsSpace.
unfoldable pub is_space : ℕ → Bool
is_space c =
    (leb 9 c && leb c 13)
    || c == 32
    || c == 0x85
    || c == 0xA0
    || c == 0x1680
    || (leb 0x2000 c && leb c 0x200A)
    || c == 0x2028
    || c == 0x2029
    || c == 0x202F
    || c == 0x205F
    || c == 0x3000

unfoldable pub trim_left : Text → Text
trim_left [] = []
trim_left (c ∷ s) = if is_space c then trim_left s else c ∷ s

-- strings.TrimSpace.
unfoldable pub trim_space : Text → Text
unfolding is_space trim_left
trim_space s = reverse (trim_left (reverse (trim_left s)))

-- The UTF-8 encodings of those characters: how many bytes of space a text begins with, where the next
-- two bytes are given, and the same with the bytes of each encoding in the opposite order.
unfoldable pub is_ascii_space : ℕ → Bool
is_ascii_space c = (leb 9 c && leb c 13) || c == 32

unfoldable pub is_space_of_two : ℕ → ℕ → Bool
is_space_of_two a b = a == 0xC2 && (b == 0x85 || b == 0xA0)

unfoldable pub is_space_of_three : ℕ → ℕ → ℕ → Bool
is_space_of_three a b c =
    (a == 0xE1 && b == 0x9A && c == 0x80)
    || (a == 0xE2
        && b == 0x80
        && ((leb 0x80 c && leb c 0x8A) || c == 0xA8 || c == 0xA9 || c == 0xAF))
    || (a == 0xE2 && b == 0x81 && c == 0x9F)
    || (a == 0xE3 && b == 0x80 && c == 0x80)

unfoldable pub front_width : Text → ℕ
unfolding is_ascii_space is_space_of_two is_space_of_three
front_width [] = 0
front_width (a ∷ []) = if is_ascii_space a then 1 else 0
front_width (a ∷ b ∷ []) = if is_ascii_space a then 1 else if is_space_of_two a b then 2 else 0
front_width (a ∷ b ∷ c ∷ s) =
    if is_ascii_space a
    then 1
    else if is_space_of_two a b
    then 2
    else if is_space_of_three a b c
    then 3
    else 0

unfoldable pub back_width : Text → ℕ
unfolding is_ascii_space is_space_of_two is_space_of_three
back_width [] = 0
back_width (a ∷ []) = if is_ascii_space a then 1 else 0
back_width (b ∷ a ∷ []) = if is_ascii_space b then 1 else if is_space_of_two a b then 2 else 0
back_width (c ∷ b ∷ a ∷ s) =
    if is_ascii_space c
    then 1
    else if is_space_of_two b c
    then 2
    else if is_space_of_three a b c
    then 3
    else 0

-- So many bytes are passed over, and then every space that follows.
unfoldable pub drop_spaces : (Text → ℕ) → ℕ → Text → Text
drop_spaces width n [] = []
drop_spaces width (suc n) (c ∷ s) = drop_spaces width n s
drop_spaces width zero (c ∷ s) =
    let w = width (c ∷ s) in
    let rest = drop_spaces width (w - 1) s in if w == 0 then c ∷ s else rest

-- strings.TrimSpace of a text of bytes.
unfoldable pub trim_bytes : Text → Text
unfolding front_width back_width drop_spaces
trim_bytes s = reverse (drop_spaces back_width 0 (reverse (drop_spaces front_width 0 s)))

-- strings.HasPrefix, the prefix first.
unfoldable pub has_prefix : Text → Text → Bool
has_prefix [] s = true
has_prefix (p ∷ ps) [] = false
has_prefix (p ∷ ps) (c ∷ s) = p == c && has_prefix ps s

-- Decimal digits, as fmt prints %d.
digits_from : ℕ → ℕ → Text → Text
digits_from zero n acc = acc
digits_from (suc fuel) n acc =
    let d = (n % 10) + 48 in
    let rest = digits_from fuel (n / 10) (d ∷ acc) in if ltb n 10 then d ∷ acc else rest

-- A number has at most as many digits as its own value plus one.
unfoldable pub decimal : ℕ → Text
unfolding digits_from
decimal n = digits_from (suc n) n []

-- The order of Go's strings.
unfoldable pub text_lt : Text → Text → Bool
text_lt [] [] = false
text_lt [] (y ∷ ys) = true
text_lt (x ∷ xs) [] = false
text_lt (x ∷ xs) (y ∷ ys) = ltb x y || (x == y && text_lt xs ys)

-- One more character of the first part.
abbrev pub onto_first : ℕ → List Text → List Text
onto_first x [] = (x ∷ []) ∷ []
onto_first x (t ∷ ts) = (x ∷ t) ∷ ts

-- strings.Split at one character.
unfoldable pub split : ℕ → Text → List Text
split c [] = [] ∷ []
split c (x ∷ s) = let parts = split c s in if x == c then [] ∷ parts else onto_first x parts

-- strings.Cut at one character.
unfoldable pub cut : ℕ → Text → Option (Text × Text)
cut c [] = none
cut c (x ∷ s) =
    if x == c then some ([], s) else elim (cut c s) [ some (k, v) ↦ some (x ∷ k, v) | none ↦ none ]
