-- ===== src/Status/Records.antt =====
-- What parseStatus makes of the records that git writes.
use lctk.Prelude.{
  ltb, cut, Option-cases, ℕ, zero, suc, ◌≤◌, ◌≡◌, ◌≢◌, refl, append_nil, take-all, ap, ◌∙◌,
  Bool-cases, inl, inr, true, List, [], ◌∷◌, ◌++◌, map, Text, text, All, arith, length,
  length-append, length-take, Option, none, some, leb, text_eq, text_eq_iff, has_prefix, take,
}
use lctk.Status.{
  apply_header, parse_header, Status, Change, no_status, no_change, add, add_parsed, parse_record,
  parse_fixed, last_field, parse_fields, parse_status, finish, from_path, part, change_from_xy,
}
use lctk.Status.Splitting.{
  Lacks, fixed_then, terminated, split_n-fixed, split_n-short, split-terminated,
}

part-append : (fs : List Text) (p : Text) → part (length fs) (fs ++ p ∷ []) ≡ p
part-append [] p = refl
part-append (f ∷ fs) p = part-append fs p

parse_fixed-fields :
    (n : ℕ) (k xy : Text) (fs : List Text) (p : Text)
    → n ≡ suc (suc (length fs))
    → All (Lacks 32) (k ∷ xy ∷ fs)
    → p ≢ []
    → parse_fixed n (fixed_then (k ∷ xy ∷ fs) p) ≡ some (record (change_from_xy xy) { path = p })
unfolding parse_fixed
parse_fixed-fields n k xy fs p e l full =
    let parts = split_n-fixed (k ∷ xy ∷ fs) p l in
    rw (e, parts)
      (ground (arith, part-append fs p, length-append fs (p ∷ []), full, text_eq_iff p []))

parse_record-ordinary :
    (max : ℕ) (t : Text) (s : Status)
    → parse_record max (49 ∷ 32 ∷ t) s ≡ (none, add_parsed max (parse_fixed 8 (49 ∷ 32 ∷ t)) s)
unfolding parse_record has_prefix text_eq
parse_record-ordinary max t s = refl

parse_record-renamed :
    (max : ℕ) (t : Text) (s : Status)
    → parse_record max (50 ∷ 32 ∷ t) s ≡ (some (parse_fixed 9 (50 ∷ 32 ∷ t)), s)
unfolding parse_record has_prefix text_eq
parse_record-renamed max t s = refl

parse_record-untracked :
    (max : ℕ) (t : Text) (s : Status)
    → parse_record max (63 ∷ 32 ∷ t) s ≡ (
      none,
      add max (record no_change { path = t; state = text "untracked"; working_tree = true }) s,
    )
unfolding parse_record has_prefix text_eq
parse_record-untracked max t s = refl

last_field-short :
    (n : ℕ) (fs : List Text) (p : Text)
    → n ≡ suc (length fs)
    → All (Lacks 32) fs
    → Lacks 32 p
    → last_field (fixed_then fs p) n ≡ none
unfolding last_field
last_field-short n fs p e l m =
    rw (e, split_n-short fs p l m) (ground (arith, length-append fs (p ∷ [])))

parse_record-unmerged :
    (max : ℕ) (t : Text) (s : Status)
    → last_field (117 ∷ 32 ∷ t) 11 ≡ none
    → parse_record max (117 ∷ 32 ∷ t) s ≡ (none, s)
unfolding parse_record has_prefix text_eq
parse_record-unmerged max t s h = rw h refl

-- The record of an unmerged file, nine fields without a space after its letter and then a path
-- without a space, changes nothing: the file is left out of the list and of the count.
pub unmerged_dropped :
    (max : ℕ) (fs : List Text) (p : Text) (s : Status)
    → length fs ≡ 9
    → All (Lacks 32) fs
    → Lacks 32 p
    → parse_record max (fixed_then (text "u" ∷ fs) p) s ≡ (none, s)
unmerged_dropped max fs p s nine l m =
    parse_record-unmerged max (fixed_then fs p) s
      (last_field-short 11 (text "u" ∷ fs) p (omega (arith, nine)) ((refl, tt), l) m)

-- A changed file, a renamed or copied one, an untracked one.
pub data Entry : Type 0 where
  ordinary : ℕ → ℕ → List Text → Text → Entry
  renamed : ℕ → ℕ → List Text → Text → Text → Entry
  untracked : Text → Entry

-- The fields of its record, as git documents them.
abbrev pub fields_of : Entry → List Text
fields_of (ordinary x y fs p) = fixed_then (text "1" ∷ (x ∷ y ∷ []) ∷ fs) p ∷ []
fields_of (renamed x y fs p f) = fixed_then (text "2" ∷ (x ∷ y ∷ []) ∷ fs) p ∷ f ∷ []
fields_of (untracked p) = (text "? " ++ p) ∷ []

abbrev pub all_fields : List Entry → List Text
all_fields [] = []
all_fields (e ∷ es) = fields_of e ++ all_fields es

-- The change that it means.
abbrev pub meant : Entry → Change
meant (ordinary x y fs p) = record (change_from_xy (x ∷ y ∷ [])) { path = p }
meant (renamed x y fs p f) = record (change_from_xy (x ∷ y ∷ [])) { path = p; from = f }
meant (untracked p) = record no_change { path = p; state = text "untracked"; working_tree = true }

-- The fields before the path hold no space, and the path is not empty.
abbrev pub IsWritten : Entry → Type 0
IsWritten (ordinary x y fs p) = (length fs ≡ 6) × All (Lacks 32) ((x ∷ y ∷ []) ∷ fs) × (p ≢ [])
IsWritten (renamed x y fs p f) = (length fs ≡ 7) × All (Lacks 32) ((x ∷ y ∷ []) ∷ fs) × (p ≢ [])
IsWritten (untracked p) = p ≢ []

abbrev add_all : ℕ → Status → List Change → Status
add_all max s [] = s
add_all max s (c ∷ cs) = add_all max (add max c s) cs

parse_fields-step :
    (max : ℕ) (o : Option (Option Change)) (line : Text) (fields : List Text) (s t : Status)
    → parse_record max line s ≡ (o, t)
    → parse_fields max none s (line ∷ fields) ≡ parse_fields max o t fields
unfolding parse_fields
parse_fields-step max o line fields s t h = ap (λ r. parse_fields max r.0 r.1 fields) h

parse_fields-entries :
    (max : ℕ) (s : Status) (es : List Entry)
    → All IsWritten es
    → parse_fields max none s (all_fields es) ≡ add_all max s (map meant es)
unfolding parse_fields
parse_fields-entries max s [] w = refl
parse_fields-entries max s (ordinary x y fs p ∷ es) ((six, l, full), w) =
    let read =
      parse_fixed-fields 8 (text "1") (x ∷ y ∷ []) fs p (omega (arith, six)) ((refl, tt), l) full in
    let rest = fixed_then ((x ∷ y ∷ []) ∷ fs) p in
    parse_fields-step max none (49 ∷ 32 ∷ rest) (all_fields es) s
      (add max (meant (ordinary x y fs p)) s)
      (parse_record-ordinary max rest s ∙ ap (λ c. (none, add_parsed max c s)) read)
    ∙ parse_fields-entries max (add max (meant (ordinary x y fs p)) s) es w
parse_fields-entries max s (renamed x y fs p f ∷ es) ((seven, l, full), w) =
    let read =
      parse_fixed-fields 9 (text "2") (x ∷ y ∷ []) fs p (omega (arith, seven)) ((refl, tt), l)
        full in
    let rest = fixed_then ((x ∷ y ∷ []) ∷ fs) p in
    let c : Change = record (change_from_xy (x ∷ y ∷ [])) { path = p } in
    parse_fields-step max (some (some c)) (50 ∷ 32 ∷ rest) (f ∷ all_fields es) s s
      (parse_record-renamed max rest s ∙ ap (λ k. (some k, s)) read)
    ∙ parse_fields-entries max (add max (from_path f c) s) es w
parse_fields-entries max s (untracked p ∷ es) (full, w) =
    parse_fields-step max none (63 ∷ 32 ∷ p) (all_fields es) s (add max (meant (untracked p)) s)
      (parse_record-untracked max p s)
    ∙ parse_fields-entries max (add max (meant (untracked p)) s) es w

meant-path : (e : Entry) → IsWritten e → (meant e).path ≢ []
meant-path (ordinary x y fs p) (six, l, full) = full
meant-path (renamed x y fs p f) (seven, l, full) = full
meant-path (untracked p) w = w

take-snoc_full :
    (n : ℕ) (cs : List Change) (c : Change) → n ≤ length cs → take n (cs ++ c ∷ []) ≡ take n cs
take-snoc_full zero cs c h = refl
take-snoc_full (suc n) [] c h = absurd (omega (arith, h))
take-snoc_full (suc n) (d ∷ cs) c h = ap (λ r. d ∷ r) (take-snoc_full n cs c (omega (arith, h)))

-- What has been added so far: the first of all changes, and how many there were.
abbrev Holds : ℕ → List Change → Status → Type 0
Holds max cs s = (s.changed ≡ take max cs) × (s.total ≡ length cs)

add-Holds :
    (max : ℕ) (cs : List Change) (c : Change) (s : Status)
    → c.path ≢ []
    → Holds max cs s
    → Holds max (cs ++ c ∷ []) (add max c s)
unfolding add
add-Holds max cs c s full (kept, counted) =
    let len = length-append cs (c ∷ []) in
    elim (Bool-cases (leb max (length cs))) [
      | inl more ↦
          let e = take-snoc_full max cs c (ground (arith, more)) in
          ground
            (arith, full, text_eq_iff c.path [], kept, counted, more, e, len, length-take max cs)
      | inr room ↦
          let e = take-all (cs ++ c ∷ []) max (ground (arith, room, len)) in
          let f = take-all cs max (ground (arith, room)) in
          ground (arith, full, text_eq_iff c.path [], kept, counted, room, e, f, len)
    ]

append_cons :
    (cs : List Change) (c : Change) (ds : List Change) → (cs ++ c ∷ []) ++ ds ≡ cs ++ c ∷ ds
append_cons [] c ds = refl
append_cons (b ∷ cs) c ds = ap (λ r. b ∷ r) (append_cons cs c ds)

add_all-Holds :
    (max : ℕ) (cs : List Change) (es : List Entry) (s : Status)
    → All IsWritten es
    → Holds max cs s
    → Holds max (cs ++ map meant es) (add_all max s (map meant es))
add_all-Holds max cs [] s w h = rw (append_nil cs) h
add_all-Holds max cs (e ∷ es) s (full, w) h =
    let next = add-Holds max cs (meant e) s (meant-path e full) h in
    rw⁻¹ (append_cons cs (meant e) (map meant es))
      (add_all-Holds max (cs ++ meant e ∷ []) es (add max (meant e) s) w next)

-- The fields of the records about the branch.
abbrev pub header_fields : List Text → List Text
header_fields [] = []
header_fields (h ∷ hs) = (text "# " ++ h) ∷ header_fields hs

abbrev read_headers : List Text → Status → Status
read_headers [] s = s
read_headers (h ∷ hs) s = read_headers hs (parse_header h s)

apply_header-Holds :
    (max : ℕ) (key value : Text) (s : Status)
    → Holds max [] s
    → Holds max [] (apply_header key value s)
unfolding apply_header
apply_header-Holds max key value s h = elim (Option-cases (cut 32 value)) [
  | inl missing ↦ ground (arith, h, missing)
  | inr (p, found) ↦ ground (arith, h, found)
]

parse_header-Holds :
    (max : ℕ) (header : Text) (s : Status) → Holds max [] s → Holds max [] (parse_header header s)
unfolding parse_header
parse_header-Holds max header s h = elim (Option-cases (cut 32 header)) [
  | inl missing ↦ rw (missing, parse_header) h
  | inr (p, found) ↦ rw (found, parse_header) (apply_header-Holds max p.0 p.1 s h)
]

read_headers-Holds :
    (max : ℕ) (hs : List Text) (s : Status) → Holds max [] s → Holds max [] (read_headers hs s)
read_headers-Holds max [] s h = h
read_headers-Holds max (x ∷ hs) s h =
    read_headers-Holds max hs (parse_header x s) (parse_header-Holds max x s h)

parse_record-header :
    (max : ℕ) (t : Text) (s : Status) → parse_record max (35 ∷ 32 ∷ t) s ≡ (none, parse_header t s)
unfolding parse_record has_prefix text_eq
parse_record-header max t s = refl

parse_fields-headers :
    (max : ℕ) (hs : List Text) (fields : List Text) (s : Status)
    → parse_fields max none s (header_fields hs ++ fields)
      ≡ parse_fields max none (read_headers hs s) fields
parse_fields-headers max [] fields s = refl
parse_fields-headers max (h ∷ hs) fields s =
    parse_fields-step max none (35 ∷ 32 ∷ h) (header_fields hs ++ fields) s (parse_header h s)
      (parse_record-header max h s)
    ∙ parse_fields-headers max hs fields (parse_header h s)

length-map-meant : (es : List Entry) → length (map meant es) ≡ length es
length-map-meant [] = refl
length-map-meant (e ∷ es) = ap suc (length-map-meant es)

take-nil : (max : ℕ) → [] ≡ take {A = Change} max []
take-nil zero = refl
take-nil (suc max) = refl

-- Git's output is read back: from the records about the branch, of which there is at least one,
-- and then those of changed, renamed and untracked files, the changes that the latter mean are
-- reported in order, up to the limit, all are counted, and the status is dirty exactly when there
-- is one. The fields before a path hold no space, a path is not empty, and no field holds a NUL.
pub parse_status-entries :
    (h : Text) (hs : List Text) (es : List Entry) (max : ℕ)
    → All IsWritten es
    → All (Lacks 0) (header_fields (h ∷ hs) ++ all_fields es)
    → let s = parse_status (terminated (header_fields (h ∷ hs) ++ all_fields es)) max in
      (s.changed ≡ take max (map meant es)) × (s.total ≡ length es) × (s.dirty ≡ ltb 0 (length es))
unfolding parse_status finish
parse_status-entries h hs es max w l =
    let start = read_headers (h ∷ hs) no_status in
    let (kept, counted) =
      add_all-Holds max [] es start w
        (read_headers-Holds max (h ∷ hs) no_status (take-nil max, refl)) in
    let read =
      ap (parse_fields max none no_status)
        (split-terminated (text "# " ++ h) (header_fields hs ++ all_fields es) l)
      ∙ parse_fields-headers max (h ∷ hs) (all_fields es) no_status
      ∙ parse_fields-entries max start es w in
    let total = ap (λ s. s.total) read ∙ counted ∙ length-map-meant es in
    (ap (λ s. s.changed) read ∙ kept, total, ap (ltb 0) total)
