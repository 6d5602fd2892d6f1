-- ===== src/Codex/Forced.antt =====
-- What a forced merge replaces.
use lctk.Prelude.{
  ℕ, suc, ◌+◌, ◌-◌, ◌≡◌, refl, ap, sym, ◌∙◌, Bool, true, false, not, ◌&&◌, none, some, List, [],
  ◌∷◌, ◌++◌, Text, All, arith, if◌then◌else◌, length, drop, length-append, take-append,
  append_assoc,
}
use lctk.Codex.{
  foreign, opens, closes, table_from, find_server_table, find_managed_region, parse_table_header,
  entry_name, locate, replace_lines, region, merged, is_blank, place, merge,
}

table_from-skip :
    (name : Text) (i : ℕ) (xs ys : List Text)
    → All (λ l. opens name (parse_table_header l) ≡ false) xs
    → table_from name i none (xs ++ ys) ≡ table_from name (i + length xs) none ys
unfolding table_from
table_from-skip name i [] ys h = ap (λ k. table_from name k none ys) (omega arith)
table_from-skip name i (x ∷ xs) ys h =
    ap (λ t. table_from name (suc i) (if t then some i else none) (xs ++ ys)) h.0
    ∙ table_from-skip name (suc i) xs ys h.1
    ∙ ap (λ k. table_from name k none ys) (omega arith)

table_from-inside :
    (name next : Text) (i f : ℕ) (xs ys : List Text)
    → All (λ l. closes name (parse_table_header l) ≡ false) xs
    → closes name (parse_table_header next) ≡ true
    → table_from name i (some f) (xs ++ (next ∷ ys)) ≡ some (f, i + length xs - 1)
unfolding table_from
table_from-inside name next i f [] ys h c = rw c (ap (λ k. some (f, k)) (omega arith))
table_from-inside name next i f (x ∷ xs) ys h c =
    rw (h.0)
      (table_from-inside name next (suc i) f xs ys h.1 c ∙ ap (λ k. some (f, k)) (omega arith))

drop-length : (xs ys : List Text) → drop (length xs) (xs ++ ys) ≡ ys
drop-length [] ys = refl
drop-length (x ∷ xs) ys = drop-length xs ys

find-table :
    (name : Text) (pre mid post : List Text) (header next : Text)
    → All (λ l. opens name (parse_table_header l) ≡ false) pre
    → opens name (parse_table_header header) ≡ true
    → All (λ l. closes name (parse_table_header l) ≡ false) mid
    → closes name (parse_table_header next) ≡ true
    → find_server_table (pre ++ (header ∷ (mid ++ (next ∷ post)))) name
      ≡ some (length pre, length pre + length mid)
unfolding find_server_table table_from
find-table name pre mid post header next before at_it within after =
    let k = 0 + length pre in
    table_from-skip name 0 pre (header ∷ (mid ++ (next ∷ post))) before
    ∙ ap (λ t. table_from name (suc k) (if t then some k else none) (mid ++ (next ∷ post))) at_it
    ∙ table_from-inside name next (suc k) k mid post within after
    ∙ ground arith

replace-middle :
    (pre mid block rest : List Text) (header : Text)
    → replace_lines (pre ++ (header ∷ (mid ++ rest))) (length pre) (length pre + length mid) block
      ≡ pre ++ (block ++ rest)
unfolding replace_lines
replace-middle pre mid block rest header =
    let front = pre ++ (header ∷ mid) in
    let size : length pre + length mid + 1 ≡ length front =
      omega (arith, length-append pre (header ∷ mid)) in
    let left : drop (length pre + length mid + 1) (pre ++ (header ∷ (mid ++ rest))) ≡ rest =
      ap (λ n. drop n (pre ++ (header ∷ (mid ++ rest)))) size
      ∙ ap (λ ls. drop (length front) ls) (sym (append_assoc pre (header ∷ mid) rest))
      ∙ drop-length front rest in
    rw (take-append pre (header ∷ (mid ++ rest)), left)

locate-foreign :
    (lines : List Text) (id : Text) (i j : ℕ)
    → find_managed_region lines id ≡ none
    → find_server_table lines (entry_name id) ≡ some (i, j)
    → locate lines id ≡ record { placement = foreign; first = i; last = j }
unfolding locate
locate-foreign lines id i j e f = rw (e, f, locate)

good_enough : (a b : Bool) → b ≡ true → (not a && not b) ≡ false
good_enough a b h = ground (arith, h)

module _ (valid : List Text → Bool) (id : Text) (body : List Text) where
  -- In a file without a region of the project, a forced merge over the first table of its server
  -- replaces the table's header and every line after it up to the next header that is not below
  -- the table, whatever these lines are, comments and the markers of other regions among them;
  -- the file and the result are valid.
  pub forced_merge_replaces :
      (pre mid post : List Text) (header next : Text)
      → let lines = pre ++ (header ∷ (mid ++ (next ∷ post))) in
        let result = pre ++ (region id body ++ (next ∷ post)) in
        All (λ l. opens (entry_name id) (parse_table_header l) ≡ false) pre
        → opens (entry_name id) (parse_table_header header) ≡ true
        → All (λ l. closes (entry_name id) (parse_table_header l) ≡ false) mid
        → closes (entry_name id) (parse_table_header next) ≡ true
        → find_managed_region lines id ≡ none
        → valid lines ≡ true
        → valid result ≡ true
        → merge valid lines id body true ≡ merged result
  unfolding merge place replace_lines
  forced_merge_replaces pre mid post header next before at_it within after unmanaged good good' =
      let lines = pre ++ (header ∷ (mid ++ (next ∷ post))) in
      let name = entry_name id in
      let found : locate lines id
          ≡ record { placement = foreign; first = length pre; last = length pre + length mid } =
        locate-foreign lines id (length pre) (length pre + length mid) unmanaged
          (find-table name pre mid post header next before at_it within after) in
      rw (
        good_enough (is_blank lines) (valid lines) good,
        found,
        replace-middle pre mid (region id body) (next ∷ post) header,
        good',
      )
