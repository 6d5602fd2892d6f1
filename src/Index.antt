-- ===== src/Index.antt =====
-- images/code-intel/internal/searchindex/store.go: the persistent search index of a project, as its
-- limits, its published state and the changes it is given. An int is a natural number where the code
-- keeps it one; the products of bulk are taken below 2^63. A generation's directory is known by its
-- number.
pub mod Batch
pub mod Building
pub mod Updating
pub mod Searching
use lctk.Prelude.{
  ℕ, zero, suc, ◌*◌, ◌≡◌, refl, Bool, true, false, ◌&&◌, ◌||◌, Option, none, some, List, [], ◌∷◌,
  Text, text, leb, ltb, ℤ, pos, negsuc, ◌==◌, if◌then◌else◌, lookup,
}
use lctk.Ignore.{is_ignore_file}

abbrev pub schema_version : ℕ
schema_version = 1

pub record Limits : Type 0 where
  pub max_file_bytes : ℕ
  pub max_delta_generations : ℕ
  pub keep_generations : ℕ
  pub bulk_change_floor : ℕ
  pub bulk_change_percent : ℕ

-- The limits as a caller gives them, of any sign.
pub record GivenLimits : Type 0 where
  pub max_file_bytes : ℤ
  pub max_delta_generations : ℤ
  pub keep_generations : ℤ
  pub bulk_change_floor : ℤ
  pub bulk_change_percent : ℤ

abbrev pub default_limits : Limits
default_limits = record {
  max_file_bytes = 1048576;
  max_delta_generations = 32;
  keep_generations = 2;
  bulk_change_floor = 500;
  bulk_change_percent = 25;
}

unfoldable pub positive_or : ℕ → ℤ → ℕ
positive_or default (pos n) = if ltb 0 n then n else default
positive_or default (negsuc n) = default

-- Limits.withDefaults.
unfoldable pub with_defaults : GivenLimits → Limits
unfolding positive_or
with_defaults l = record {
  max_file_bytes = positive_or default_limits.max_file_bytes l.max_file_bytes;
  max_delta_generations = positive_or default_limits.max_delta_generations l.max_delta_generations;
  keep_generations = positive_or default_limits.keep_generations l.keep_generations;
  bulk_change_floor = positive_or default_limits.bulk_change_floor l.bulk_change_floor;
  bulk_change_percent = positive_or default_limits.bulk_change_percent l.bulk_change_percent;
}

-- Limits.bulk.
unfoldable pub bulk : Limits → ℕ → ℕ → Bool
bulk l count indexed =
    if ltb count l.bulk_change_floor
    then false
    else if leb indexed 0
    then true
    else leb (indexed * l.bulk_change_percent) (count * 100)

-- A path and the digest of its content.
abbrev pub Files : Type 0
Files = List (Text × Text)

pub record State : Type 0 where
  pub schema_version : ℕ
  pub generation : ℕ
  pub delta_depth : ℕ
  pub files : Files
  pub file_count : ℕ
  pub skipped_big : ℕ
  pub skipped_ignored : ℕ
  pub source_bytes : ℕ
  pub ignore_sources : List Text
  pub built_at : ℕ
  pub full_build : Bool

pub record Change : Type 0 where
  pub path : Text
  pub deleted : Bool
  pub subtree : Bool

-- The codes that errors carry. A cancelled context gives its own error.
pub data Code : Type 0 where
  index_not_ready : Code
  index_corrupt : Code
  invalid_pattern : Code
  invalid_cursor : Code
  limit_exceeded : Code
  internal_error : Code
  context_error : Code

pub data Result (Answer : Type 0) : Type 0 where
  err : Code → Result Answer
  ok : Answer → Result Answer

infixl 5 ◌>>=◌ ◌>>◌
abbrev pub ◌>>=◌ : {X Y : Type 0} → Result X → (X → Result Y) → Result Y
err code >>= next = err code
ok x >>= next = next x

abbrev pub ◌>>◌ : {Y : Type 0} → Result (Unit {0}) → Result Y → Result Y
first >> next = first >>= λ done. next

-- A chain that ends well went well at its first step.
pub first_step_ok :
    {X Y : Type 0} (first : Result X) (next : X → Result Y) {y : Y}
    → first >>= next ≡ ok y
    → (x : X) × (first ≡ ok x) × (next x ≡ ok y)
first_step_ok (err code) next e = absurd (cc)
first_step_ok (ok x) next e = (x, refl, e)

-- A step that fails with a code.
abbrev pub unless : Bool → Code → Result (Unit {0})
unless failed code = if failed then err code else ok tt

-- touchesIgnoreRules.
unfoldable pub touches_ignore_rules : List Change → Bool
touches_ignore_rules [] = false
touches_ignore_rules (c ∷ cs) = is_ignore_file c.path || touches_ignore_rules cs

-- What a read through the workspace's root gives.
pub data Reading : Type 0 where
  bytes : Text → Reading
  missing : Reading
  unreadable : Reading

-- files[name], the empty text where the map has no such name.
unfoldable pub digest_at : Text → Files → Text
digest_at name files = elim (lookup name files) [ some d ↦ d | none ↦ [] ]
