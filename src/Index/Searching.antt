-- ===== src/Index/Searching.antt =====
-- Store.Search of images/code-intel/internal/searchindex/search.go: the checks of a request, and the
-- pages of its matches with the cursors between them. Parsing the pattern and the globs, the search of
-- the shards and the order of the matches are given: `query` says whether buildQuery takes the request,
-- `found` is the sorted matches, or an error.
pub mod Pages
use lctk.Prelude.{
  ℕ, zero, suc, ◌+◌, ◌-◌, ◌≤◌, ◌<◌, ◌≡◌, ◌≢◌, refl, sym, ap, ◌∙◌, inl, inr, Bool, Bool-cases, true,
  false, not, Option, none, some, List, [], ◌∷◌, ◌++◌, Text, text, text_eq, trim_bytes, ℤ, pos,
  negsuc, ltb, leb, ◌==◌, if◌then◌else◌, length, take, drop, arith,
}
use lctk.Index.{
  State, Code, invalid_pattern, invalid_cursor, limit_exceeded, Result, ok, err, ◌>>=◌, ◌>>◌,
  unless,
}

abbrev pub default_limit : ℕ
default_limit = 50

abbrev pub max_limit : ℕ
max_limit = 500

-- A cursor in a request: none, one that does not decode, or a generation and an offset.
pub data Cursor : Type 0 where
  no_cursor : Cursor
  bad_token : Cursor
  token : ℕ → ℤ → Cursor

pub record Request : Type 0 where
  pub pattern : Text
  pub limit : ℤ
  pub cursor : Cursor

pub record Response (Match : Type 0) : Type 0 where
  pub matches : List Match
  pub total : ℕ
  pub next_cursor : Cursor
  pub generation : ℕ
  pub file_count : ℕ

-- The switch on the limit.
unfoldable pub check_limit : ℤ → Result ℕ
check_limit (negsuc n) = err invalid_pattern
check_limit (pos n) =
    if n == 0 then ok default_limit else if ltb max_limit n then err limit_exceeded else ok n

-- decodeCursor.
unfoldable pub decode_cursor : Cursor → ℕ → Result ℕ
decode_cursor no_cursor generation = ok 0
decode_cursor bad_token generation = err invalid_cursor
decode_cursor (token g (pos offset)) generation =
    if g == generation then ok offset else err invalid_cursor
decode_cursor (token g (negsuc n)) generation = err invalid_cursor

-- min.
unfoldable pub min_of : ℕ → ℕ → ℕ
min_of a b = if leb a b then a else b

module _ {Match : Type 0} (s : State) where
  unfoldable pub page : ℕ → ℕ → List Match → Response Match
  unfolding min_of
  page offset limit matches =
      let end = min_of (offset + limit) (length matches) in
      record {
        matches = drop offset (take end matches);
        total = length matches;
        next_cursor = if ltb end (length matches) then token s.generation (pos end) else no_cursor;
        generation = s.generation;
        file_count = s.file_count;
      }

  -- Search of a published generation.
  unfoldable pub search : Request → Bool → Result (List Match) → Result (Response Match)
  unfolding check_limit decode_cursor page
  search request query found = do
    unless (text_eq (trim_bytes request.pattern) []) invalid_pattern
    limit ← check_limit request.limit
    unless (not query) invalid_pattern
    offset ← decode_cursor request.cursor s.generation
    matches ← found
    unless (ltb (length matches) offset) invalid_cursor
    ok (page offset limit matches)

  -- A client that asks for the next page until no cursor comes back.
  unfoldable pub all_pages : ℕ → Text → ℤ → List Match → Cursor → Result (List Match)
  unfolding search
  all_pages zero pattern limit found start = ok []
  all_pages (suc fuel) pattern limit found start = do
    response ← search (record { pattern = pattern; limit = limit; cursor = start }) true (ok found)
    rest ← elim response.next_cursor [
      | no_cursor ↦ ok []
      | bad_token ↦ ok []
      | token g offset ↦ all_pages fuel pattern limit found (token g offset)
    ]
    ok (response.matches ++ rest)
