-- ===== src/Ignore/Order.antt =====
-- The last rule that applies decides.
use lctk.Prelude.{
  ◌≡◌, refl, ap, sym, ◌∙◌, Bool, true, false, not, some, List, [], ◌∷◌, ◌++◌, Text, text, text_eq,
  has_prefix, All, if◌then◌else◌,
}
use lctk.Ignore.{Pattern, applies, ignored, ignored_from, parse_pattern}
use lctk.Glob.{match_glob}

ignored_from-append :
    (b : Bool) (ps qs : List Pattern) (path : Text) (d : Bool)
    → ignored_from b (ps ++ qs) path d ≡ ignored_from (ignored_from b ps path d) qs path d
unfolding ignored_from
ignored_from-append b [] qs path d = refl
ignored_from-append b (p ∷ ps) qs path d =
    ignored_from-append (if applies p path d then not p.negate else b) ps qs path d

ignored_from-none :
    (b : Bool) (ps : List Pattern) (path : Text) (d : Bool)
    → All (λ p. applies p path d ≡ false) ps
    → ignored_from b ps path d ≡ b
unfolding ignored_from
ignored_from-none b [] path d h = refl
ignored_from-none b (p ∷ ps) path d h = rw h.0 (ignored_from-none b ps path d h.1)

-- The last rule that applies decides: a path is ignored exactly as that rule says, whatever
-- stands before it.
pub ignored_last :
    (before after : List Pattern) (p : Pattern) (path : Text) (d : Bool)
    → applies p path d ≡ true
    → All (λ q. applies q path d ≡ false) after
    → ignored (before ++ p ∷ after) path d ≡ not p.negate
unfolding ignored ignored_from
ignored_last before after p path d here later =
    ignored_from-append false before (p ∷ after) path d
    ∙ ap
        (λ b.
          ignored_from (if b then not p.negate else ignored_from false before path d) after path d)
        here
    ∙ ignored_from-none (not p.negate) after path d later

-- The line by which a project starts over.
abbrev start_over_line : Text
start_over_line = text "!/**"

abbrev start_over_rule : Pattern
start_over_rule = record {
  base = [];
  glob = text "**";
  negate = true;
  dir_only = false;
  anchored = true;
}

parse_start_over : parse_pattern start_over_line [] ≡ some start_over_rule
unfolding parse_pattern text_eq has_prefix
parse_start_over = refl

start_over_applies : (path : Text) (d : Bool) → applies start_over_rule path d ≡ true
unfolding applies match_glob text_eq
start_over_applies path true = refl
start_over_applies path false = refl

-- After the line by which a project starts over, only the rules after it count.
pub start_over :
    (before after : List Pattern) (p : Pattern) (path : Text) (d : Bool)
    → parse_pattern (text "!/**") [] ≡ some p
    → ignored (before ++ p ∷ after) path d ≡ ignored after path d
unfolding ignored ignored_from
start_over before after p path d e =
    let same : p ≡ start_over_rule = cc (sym e ∙ parse_start_over) in
    let old = ignored_from false before path d in
    ignored_from-append false before (p ∷ after) path d
    ∙ ap (λ q. ignored_from (if applies q path d then not q.negate else old) after path d) same
    ∙ ap (λ b. ignored_from (if b then false else old) after path d) (start_over_applies path d)
