-- ===== src/Status/Counts.antt =====
-- The counts that parseStatus reports beside the bounded list.
use lctk.Prelude.{
  cut, split, ℕ, ◌≡◌, refl, Bool, true, false, if◌then◌else◌, List, [], ◌∷◌, Text, text, arith,
  length, length-append, Option, none, some, ltb, text_eq, has_prefix, drop,
}
use mathlib.Core.Option
use lctk.Status.{
  Status, Change, no_status, no_change, add, add_parsed, parse_header, apply_header, parse_record,
  parse_fixed, last_field, parse_fields, parse_status, finish, from_path, trim_suffix,
}

abbrev IsCounted : ℕ → Status → Type 0
IsCounted max s =
    (length s.changed ≡ (if ltb max s.total then max else s.total))
    × (s.truncated ≡ ltb max s.total)

add-IsCounted : (max : ℕ) (c : Change) (s : Status) → IsCounted max s → IsCounted max (add max c s)
unfolding add
add-IsCounted max c s (kept, cut_off) =
    ground (arith, kept, cut_off, length-append s.changed (c ∷ []))

add_parsed-IsCounted :
    (max : ℕ) (c : Option Change) (s : Status)
    → IsCounted max s
    → IsCounted max (add_parsed max c s)
add_parsed-IsCounted max none s h = h
add_parsed-IsCounted max (some c) s h = add-IsCounted max c s h

apply_header-IsCounted :
    (max : ℕ) (key value : Text) (s : Status)
    → IsCounted max s
    → IsCounted max (apply_header key value s)
unfolding apply_header
apply_header-IsCounted max key value s h = ground (arith, h)

parse_header-IsCounted :
    (max : ℕ) (header : Text) (s : Status) → IsCounted max s → IsCounted max (parse_header header s)
unfolding parse_header
parse_header-IsCounted max header s h =
    elim (cut 32 header)
      as (λ o. IsCounted max (elim o [ some (key, value) ↦ apply_header key value s | none ↦ s ])) [
        | some (key, value) ↦ apply_header-IsCounted max key value s h
        | none ↦ h
      ]

either-IsCounted :
    (max : ℕ) (b : Bool) (u v : Option (Option Change) × Status)
    → IsCounted max u.1
    → IsCounted max v.1
    → IsCounted max (if b then u else v).1
either-IsCounted max true u v hu hv = hu
either-IsCounted max false u v hu hv = hv

parse_record-IsCounted :
    (max : ℕ) (line : Text) (s : Status)
    → IsCounted max s
    → IsCounted max (parse_record max line s).1
unfolding parse_record
parse_record-IsCounted max line s h =
    let conflict =
      Option.map
        (λ p. record no_change { path = p; state = text "conflicted"; working_tree = true })
        (last_field line 11) in
    let file = record no_change {
      path = drop 2 line;
      state = text "untracked";
      working_tree = true;
    } in
    either-IsCounted max (text_eq line []) _ _ h (
      either-IsCounted max (has_prefix (text "# ") line) _ _
        (parse_header-IsCounted max (drop 2 line) s h)
        (either-IsCounted max (has_prefix (text "1 ") line) _ _
          (add_parsed-IsCounted max (parse_fixed 8 line) s h)
          (either-IsCounted max (has_prefix (text "2 ") line) _ _ h (
            either-IsCounted max (has_prefix (text "u ") line) _ _
              (add_parsed-IsCounted max conflict s h)
              (either-IsCounted max (has_prefix (text "? ") line) _ _ (add-IsCounted max file s h)
                h)))))

parse_fields-IsCounted :
    (max : ℕ) (o : Option (Option Change)) (s : Status) (fields : List Text)
    → IsCounted max s
    → IsCounted max (parse_fields max o s fields)
unfolding parse_fields
parse_fields-IsCounted max none s [] h = h
parse_fields-IsCounted max (some c) s [] h = add_parsed-IsCounted max c s h
parse_fields-IsCounted max (some c) s (f ∷ fields) h =
    parse_fields-IsCounted max none (add_parsed max (Option.map (from_path f) c) s) fields
      (add_parsed-IsCounted max (Option.map (from_path f) c) s h)
parse_fields-IsCounted max none s (line ∷ fields) h =
    parse_fields-IsCounted max (parse_record max line s).0 (parse_record max line s).1 fields
      (parse_record-IsCounted max line s h)

-- However the output is damaged, as many changes are listed as were counted, up to the limit; the
-- list is called truncated exactly when more were counted, and the tree dirty exactly when some
-- were.
pub parse_status-counts :
    (raw : Text) (max : ℕ)
    → let s = parse_status raw max in
      (length s.changed ≡ (if ltb max s.total then max else s.total))
      × (s.truncated ≡ ltb max s.total)
      × (s.dirty ≡ ltb 0 s.total)
unfolding parse_status finish
parse_status-counts raw max =
    let (kept, cut_off) =
      parse_fields-IsCounted max none no_status (split 0 (trim_suffix 0 raw)) (ground arith) in
    (kept, cut_off, refl)
