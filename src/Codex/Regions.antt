-- ===== src/Codex/Regions.antt =====
-- Where a region is found, and that removing it undoes a merge.
use lctk.Prelude.{
  ℕ, suc, ◌+◌, ◌≡◌, refl, ap, sym, ◌∙◌, inl, inr, Bool, Bool-cases, true, false, ◌||◌, none, some,
  List, [], ◌∷◌, ◌++◌, Text, text, text_eq, text_eq_iff, text_eq_refl, trim_space, All, All-append,
  take-append, drop-all, if_cases, arith, if◌then◌else◌, length, append_nil, append_assoc,
  length-append,
}
use mathlib.Core.List.{reverse, reverse-append, reverse-reverse}
use lctk.Codex.{
  managed, region_from, find_managed_region, begin_marker, end_marker, locate, trim_leading_blanks,
  trim_trailing_blanks, after_blank, append_block, replace_lines, region, merged, is_blank,
  remove_at, remove,
}

-- No line is the marker.
abbrev pub Lacks : Text → List Text → Type 0
Lacks m = All (λ l. text_eq (trim_space l) m ≡ false)

region_from-skip :
    (b e : Text) (i : ℕ) (xs ys : List Text)
    → Lacks b xs
    → region_from b e i none (xs ++ ys) ≡ region_from b e (i + length xs) none ys
unfolding region_from
region_from-skip b e i [] ys h = ap (λ k. region_from b e k none ys) (omega arith)
region_from-skip b e i (x ∷ xs) ys h =
    ap (λ t. region_from b e (suc i) (if t then some i else none) (xs ++ ys)) h.0
    ∙ (region_from-skip b e (suc i) xs ys h.1 ∙ ap (λ k. region_from b e k none ys) (omega arith))

region_from-inside :
    (b e l : Text) (i f : ℕ) (xs ys : List Text)
    → Lacks e xs
    → trim_space l ≡ e
    → region_from b e i (some f) (xs ++ (l ∷ ys)) ≡ some (f, i + length xs)
unfolding region_from
region_from-inside b e l i f [] ys h m =
    rw (m, text_eq_refl e) (ap (λ k. some (f, k)) (omega arith))
region_from-inside b e l i f (x ∷ xs) ys h m =
    rw (h.0) (region_from-inside b e l (suc i) f xs ys h.1 m ∙ ap (λ k. some (f, k)) (omega arith))

-- The comments of a region.
abbrev comments : List Text
comments =
    text "# Generated by LCTK. This region is rewritten; edit it through lctk."
    ∷ text "# The grant token is read from the named environment variable and is never stored here."
    ∷ []

comments-Lacks : (id : Text) → Lacks (end_marker id) comments
unfolding end_marker trim_space text_eq
comments-Lacks id = (refl, (refl, tt))

region_from-begin :
    (b e l : Text) (i : ℕ) (ls : List Text)
    → trim_space l ≡ b
    → region_from b e i none (l ∷ ls) ≡ region_from b e (suc i) (some i) ls
unfolding region_from
region_from-begin b e l i ls m =
    ap (λ t. region_from b e (suc i) (if t then some i else none) ls)
      ((text_eq_iff (trim_space l) b).1 m)

length-region : (id : Text) (body : List Text) → length (region id body) ≡ length body + 4
unfolding region
length-region id body = omega (arith, length-append body (end_marker id ∷ []))

region-eq :
    (id : Text) (body : List Text)
    → region id body ≡ begin_marker id ∷ ((comments ++ body) ++ end_marker id ∷ [])
unfolding region
region-eq id body = refl

module _ (id : Text) (body : List Text) (spaced : trim_space (begin_marker id) ≡ begin_marker id)
    (spaced_end : trim_space (end_marker id) ≡ end_marker id)
    (inner : Lacks (end_marker id) body) where
  inside : Lacks (end_marker id) (comments ++ body)
  inside = ((comments-Lacks id).0, ((comments-Lacks id).1.0, inner))

  whole :
      (post : List Text)
      → region id body ++ post ≡ begin_marker id ∷ ((comments ++ body) ++ (end_marker id ∷ post))
  whole post =
      rw (region-eq id body)
        (ap (λ r. begin_marker id ∷ r) (append_assoc (comments ++ body) (end_marker id ∷ []) post))

  find-region :
      (pre post : List Text)
      → Lacks (begin_marker id) pre
      → find_managed_region (pre ++ (region id body ++ post)) id
        ≡ some (length pre, length pre + length body + 3)
  unfolding find_managed_region
  find-region pre post h =
      region_from-skip (begin_marker id) (end_marker id) 0 pre (region id body ++ post) h
      ∙ ap (λ k. region_from (begin_marker id) (end_marker id) k none (region id body ++ post))
          (omega arith)
      ∙ ap (λ ls. region_from (begin_marker id) (end_marker id) (length pre) none ls) (whole post)
      ∙ region_from-begin (begin_marker id) (end_marker id) (begin_marker id) (length pre)
          ((comments ++ body) ++ (end_marker id ∷ post)) spaced
      ∙ region_from-inside (begin_marker id) (end_marker id) (end_marker id) (suc (length pre))
          (length pre) (comments ++ body) post inside spaced_end
      ∙ ap (λ k. some (length pre, k)) (omega (arith))

trim_leading-trim_leading :
    (xs : List Text) → trim_leading_blanks (trim_leading_blanks xs) ≡ trim_leading_blanks xs
unfolding trim_leading_blanks
trim_leading-trim_leading [] = refl
trim_leading-trim_leading (x ∷ xs) = elim (Bool-cases (text_eq (trim_space x) [])) [
  | inl blank ↦ rw (blank, trim_leading-trim_leading xs)
  | inr full ↦ rw (full, full)
]

trim_trailing-trim_trailing :
    (xs : List Text) → trim_trailing_blanks (trim_trailing_blanks xs) ≡ trim_trailing_blanks xs
unfolding trim_trailing_blanks
trim_trailing-trim_trailing xs =
    ap (λ r. reverse (trim_leading_blanks r)) (reverse-reverse (trim_leading_blanks (reverse xs)))
    ∙ ap reverse (trim_leading-trim_leading (reverse xs))

trim_trailing-blank :
    (xs : List Text)
    → trim_trailing_blanks (trim_trailing_blanks xs ++ [] ∷ []) ≡ trim_trailing_blanks xs
unfolding trim_trailing_blanks trim_leading_blanks trim_space text_eq
trim_trailing-blank xs =
    ap (λ r. reverse (trim_leading_blanks r)) (reverse-append (trim_trailing_blanks xs) ([] ∷ []))
    ∙ trim_trailing-trim_trailing xs

reverse-Lacks : (m : Text) (xs : List Text) → Lacks m xs → Lacks m (reverse xs)
reverse-Lacks m [] h = tt
reverse-Lacks m (x ∷ xs) h = rw (reverse-append (x ∷ []) xs) (
    All-append (λ l. text_eq (trim_space l) m ≡ false) (reverse xs) (x ∷ [])
      (reverse-Lacks m xs h.1) (h.0, tt))

trim_leading-Lacks : (m : Text) (xs : List Text) → Lacks m xs → Lacks m (trim_leading_blanks xs)
unfolding trim_leading_blanks
trim_leading-Lacks m [] h = tt
trim_leading-Lacks m (x ∷ xs) h =
    if_cases (Lacks m) (text_eq (trim_space x) []) (trim_leading_blanks xs) (x ∷ xs)
      (λ blank. trim_leading-Lacks m xs h.1) (λ full. h)

trim_trailing-Lacks : (m : Text) (xs : List Text) → Lacks m xs → Lacks m (trim_trailing_blanks xs)
unfolding trim_trailing_blanks
trim_trailing-Lacks m xs h =
    reverse-Lacks m (trim_leading_blanks (reverse xs))
      (trim_leading-Lacks m (reverse xs) (reverse-Lacks m xs h))

-- The lines before an appended region.
spaced_out : List Text → List Text
spaced_out [] = []
spaced_out (x ∷ xs) = (x ∷ xs) ++ [] ∷ []

after_blank-eq : (t block : List Text) → after_blank t block ≡ spaced_out t ++ block
unfolding after_blank spaced_out
after_blank-eq [] block = refl
after_blank-eq (x ∷ xs) block = sym (append_assoc (x ∷ xs) ([] ∷ []) block)

spaced_out-Lacks :
    (id : Text) (t : List Text) → Lacks (begin_marker id) t → Lacks (begin_marker id) (spaced_out t)
unfolding spaced_out begin_marker trim_space text_eq
spaced_out-Lacks id [] h = tt
spaced_out-Lacks id (x ∷ xs) h =
    All-append (λ l. text_eq (trim_space l) (begin_marker id) ≡ false) (x ∷ xs) ([] ∷ []) h
      (refl, tt)

trim_trailing-spaced_out :
    (lines t : List Text)
    → t ≡ trim_trailing_blanks lines
    → trim_trailing_blanks (spaced_out t) ≡ trim_trailing_blanks lines
unfolding spaced_out
trim_trailing-spaced_out lines [] e = ap trim_trailing_blanks e ∙ trim_trailing-trim_trailing lines
trim_trailing-spaced_out lines (x ∷ xs) e =
    ap (λ t. trim_trailing_blanks (t ++ [] ∷ [])) e ∙ trim_trailing-blank lines

locate-managed :
    (lines : List Text) (id : Text) (i j : ℕ)
    → find_managed_region lines id ≡ some (i, j)
    → locate lines id ≡ record { placement = managed; first = i; last = j }
unfolding locate
locate-managed lines id i j e = rw (e, locate)

begin_is_not_end : (id : Text) → text_eq (begin_marker id) (end_marker id) ≡ false
unfolding begin_marker end_marker text_eq
begin_is_not_end id = refl

blank_is_not_end : (id : Text) → text_eq (trim_space []) (end_marker id) ≡ false
unfolding end_marker trim_space text_eq
blank_is_not_end id = refl

after_blank-middle :
    (pre mid : List Text) (stray : Text) (block : List Text)
    → after_blank (pre ++ (stray ∷ mid)) block ≡ pre ++ (stray ∷ ((mid ++ [] ∷ []) ++ block))
unfolding after_blank
after_blank-middle [] mid stray block = ap (λ r. stray ∷ r) (sym (append_assoc mid ([] ∷ []) block))
after_blank-middle (p ∷ pre) mid stray block =
    ap (λ r. p ∷ r)
      (append_assoc pre (stray ∷ mid) ([] ∷ block)
        ∙ ap (λ r. pre ++ (stray ∷ r)) (sym (append_assoc mid ([] ∷ []) block)))

module _ (valid : List Text → Bool) (id : Text) (body : List Text)
    (spaced : trim_space (begin_marker id) ≡ begin_marker id)
    (spaced_end : trim_space (end_marker id) ≡ end_marker id)
    (inner : Lacks (end_marker id) body) where
  -- A region from a line on, to the end of the document.
  replace-rest :
      (pre rest : List Text) (last : ℕ)
      → last + 1 ≡ length pre + length rest
      → replace_lines (pre ++ rest) (length pre) last [] ≡ pre
  unfolding replace_lines
  replace-rest pre rest last e =
      rw
        (
          take-append pre rest,
          drop-all (pre ++ rest) (last + 1) (omega (arith, e, length-append pre rest)),
        )
        (append_nil pre)

  -- Removing a project's region that was appended to a file gives the file back without the blank
  -- lines at its end. No line of the file is the begin marker, no line of the entry is the end
  -- marker, the markers have no space around them, and the file without those blank lines is
  -- blank or valid.
  pub remove-append_block :
      (lines : List Text)
      → Lacks (begin_marker id) lines
      → (is_blank (trim_trailing_blanks lines) || valid (trim_trailing_blanks lines)) ≡ true
      → remove valid (append_block lines (region id body)) id
        ≡ (merged (trim_trailing_blanks lines), true)
  unfolding remove append_block remove_at
  remove-append_block lines h good =
      let t = trim_trailing_blanks lines in
      let pre = spaced_out t in
      let at : find_managed_region (pre ++ region id body) id
          ≡ some (length pre, length pre + length body + 3) =
        ap (λ r. find_managed_region (pre ++ r) id) (sym (append_nil (region id body)))
        ∙ find-region id body spaced spaced_end inner pre []
            (spaced_out-Lacks id t (trim_trailing-Lacks (begin_marker id) lines h)) in
      let left : trim_trailing_blanks
            (replace_lines (pre ++ region id body) (length pre) (length pre + length body + 3) [])
          ≡ t =
        ap trim_trailing_blanks (
          replace-rest pre (region id body) (length pre + length body + 3)
            (omega (arith, length-region id body)))
        ∙ trim_trailing-spaced_out lines t refl in
      rw (
        after_blank-eq t (region id body),
        locate-managed (pre ++ region id body) id (length pre) (length pre + length body + 3) at,
        left,
        good,
      )

  -- A region that begins at a stray marker.
  find-stray :
      (pre mid : List Text) (stray : Text)
      → Lacks (begin_marker id) pre
      → trim_space stray ≡ begin_marker id
      → Lacks (end_marker id) mid
      → find_managed_region (pre ++ (stray ∷ (mid ++ region id body))) id
        ≡ some (length pre, length pre + length mid + length body + 4)
  unfolding find_managed_region
  find-stray pre mid stray h m n =
      let b = begin_marker id in
      let e = end_marker id in
      let xs = mid ++ (b ∷ (comments ++ body)) in
      let whole : mid ++ region id body ≡ xs ++ (e ∷ []) =
        ap (λ r. mid ++ r) (region-eq id body)
        ∙ sym (append_assoc mid (b ∷ (comments ++ body)) (e ∷ [])) in
      let size : length xs ≡ length mid + length body + 3 =
        omega (arith, length-append mid (b ∷ (comments ++ body))) in
      let lacking : Lacks e xs =
        All-append (λ l. text_eq (trim_space l) e ≡ false) mid (b ∷ (comments ++ body)) n
          (
            rw spaced (begin_is_not_end id),
            ((comments-Lacks id).0, ((comments-Lacks id).1.0, inner)),
          ) in
      region_from-skip b e 0 pre (stray ∷ (mid ++ region id body)) h
      ∙ region_from-begin b e stray (0 + length pre) (mid ++ region id body) m
      ∙ ap (λ r. region_from b e (suc (0 + length pre)) (some (0 + length pre)) r) whole
      ∙ region_from-inside b e e (suc (0 + length pre)) (0 + length pre) xs [] lacking spaced_end
      ∙ ground (arith, size)

  -- If a file that ends in a line that is not blank has a begin marker and no end marker after
  -- the first one, then after a region is appended, Remove drops the stray marker, every line
  -- after it, and the blank lines before it. The markers have no space around them, no line of
  -- the entry is the end marker, and what is left is blank or valid.
  pub stray_marker_loses :
      (pre mid : List Text) (stray : Text)
      → Lacks (begin_marker id) pre
      → trim_space stray ≡ begin_marker id
      → Lacks (end_marker id) mid
      → trim_trailing_blanks (pre ++ (stray ∷ mid)) ≡ pre ++ (stray ∷ mid)
      → (is_blank (trim_trailing_blanks pre) || valid (trim_trailing_blanks pre)) ≡ true
      → remove valid (append_block (pre ++ (stray ∷ mid)) (region id body)) id
        ≡ (merged (trim_trailing_blanks pre), true)
  unfolding remove append_block remove_at
  stray_marker_loses pre mid stray h m n trimmed good =
      let mid' = mid ++ [] ∷ [] in
      let rest = stray ∷ (mid' ++ region id body) in
      let n' : Lacks (end_marker id) mid' =
        All-append (λ l. text_eq (trim_space l) (end_marker id) ≡ false) mid ([] ∷ []) n
          (blank_is_not_end id, tt) in
      let last = length pre + length mid' + length body + 4 in
      let left : trim_trailing_blanks (replace_lines (pre ++ rest) (length pre) last [])
          ≡ trim_trailing_blanks pre =
        ap trim_trailing_blanks (
          replace-rest pre rest last
            (omega (arith, length-append mid' (region id body), length-region id body))) in
      rw (
        trimmed,
        after_blank-middle pre mid stray (region id body),
        locate-managed (pre ++ rest) id (length pre) last (find-stray pre mid' stray h m n'),
        left,
        good,
      )
