-- ===== src/Glob.antt =====
-- images/code-intel/internal/searchindex/ignore.go: the matching of one ignore glob. A text is the
-- list of its bytes. An index into the glob or the name is the rest of it from there.
pub mod Segment
pub mod Paths
use lctk.Prelude.{
  ℕ, zero, suc, ◌+◌, ◌*◌, Bool, true, false, ◌&&◌, ◌||◌, not, Option, none, some, List, [], ◌∷◌,
  Text, text, text_eq, split, cut, ltb, leb, ◌==◌, if◌then◌else◌, length, take, drop,
}

abbrev pub star : ℕ
star = b'*'

abbrev pub question : ℕ
question = b'?'

abbrev pub bracket : ℕ
bracket = b'['

-- The loop of matchClass, after the negation.
class_has : Text → ℕ → Bool
class_has [] c = false
class_has (a ∷ d ∷ b ∷ rest) c =
    let range = class_has rest c in
    let single = class_has (d ∷ b ∷ rest) c in
    if d == b'-' then (leb a c && leb c b) || range else a == c || single
class_has (a ∷ rest) c = a == c || class_has rest c

-- matchClass.
unfoldable pub match_class : Text → ℕ → Bool
unfolding class_has
match_class [] c = false
match_class (x ∷ class) c =
    if x == b'!' || x == b'^' then not (class_has class c) else class_has (x ∷ class) c

-- What the switch of matchSegment finds for a byte: it is consumed and the glob goes on, a star
-- begins, a class has no end, or the byte does not fit.
pub data Move : Type 0 where
  consumed : Text → Move
  begun : Text → Move
  unclosed : Move
  stuck : Move

unfoldable pub class_move : Option (Text × Text) → ℕ → Move
class_move none c = unclosed
class_move (some (class, rest)) c = if match_class class c then consumed rest else stuck

unfoldable pub next_move : Text → ℕ → Move
unfolding class_move
next_move [] c = stuck
next_move (x ∷ g) c =
    if x == question || x == c
    then consumed g
    else if x == bracket
    then class_move (cut b']' g) c
    else if x == star
    then begun g
    else stuck

-- starGlob and starName, where a star has been met: the glob after it, the name at it.
abbrev pub Star : Type 0
Star = Option (Text × Text)

abbrev pub Round : Type 0
Round = Text → Text → Star → Option Bool

unfoldable pub act : Move → ℕ → Text → Star → Round → Option Bool
act (consumed g) c n s next = next g n s
act (begun g) c n s next = next g (c ∷ n) (some (g, c ∷ n))
act unclosed c n s next = some false
act stuck c n none next = some false
act stuck c n (some (g, m)) next = next g (drop 1 m) (some (g, drop 1 m))

unfoldable pub only_stars : Text → Bool
only_stars [] = true
only_stars (x ∷ g) = x == star && only_stars g

-- The loop of matchSegment, on fuel.
unfoldable pub segment_loop : ℕ → Round
unfolding next_move act only_stars
segment_loop zero g n s = none
segment_loop (suc f) g [] s = some (only_stars g)
segment_loop (suc f) g (c ∷ n) s = act (next_move g c) c n s (segment_loop f)

abbrev pub segment_fuel : Text → Text → ℕ
segment_fuel g n = (length n + 1) * (length g + 1)

-- The answer of the loop. Its fuel does not run out.
abbrev pub answer : Option Bool → Bool
answer (some b) = b
answer none = false

-- matchSegment.
unfoldable pub match_segment : Text → Text → Bool
unfolding segment_loop
match_segment g n = answer (segment_loop (segment_fuel g n) g n none)

abbrev pub any_segments : Text
any_segments = text "**"

-- Some suffix of the parts, the whole first.
unfoldable pub some_suffix : (List Text → Bool) → List Text → Bool
some_suffix test [] = test []
some_suffix test (p ∷ ps) = test (p ∷ ps) || some_suffix test ps

-- matchSegments.
unfoldable pub match_segments : List Text → List Text → Bool
unfolding some_suffix match_segment
match_segments [] [] = true
match_segments [] (p ∷ ps) = false
match_segments (g ∷ gs) parts =
    if text_eq g any_segments
    then some_suffix (match_segments gs) parts
    else elim parts [ [] ↦ false | p ∷ ps ↦ match_segment g p && match_segments gs ps ]

-- matchGlob.
unfoldable pub match_glob : Text → Text → Bool
unfolding match_segments
match_glob glob subject =
    let segments = split b'/' glob in
    let parts = split b'/' subject in
    text_eq glob any_segments
    || match_segments segments parts
    || (ltb (length segments) (length parts)
        && match_segments segments (take (length segments) parts))
