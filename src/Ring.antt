-- ===== src/Ring.antt =====
-- internal/logring/logring.go: the recent log records of the daemon, in a ring of fixed size. The
-- handler that each record is passed on to is left out, and an attribute's value is its text.
pub mod Order
use lctk.Prelude.{
  ℕ, ◌+◌, ◌%◌, Bool, true, false, ◌||◌, List, [], ◌∷◌, ◌++◌, Text, text, text_eq, ◌==◌,
  if◌then◌else◌, take, drop, set, replicate, insert,
}

abbrev pub default_capacity : ℕ
default_capacity = 500

pub record Record : Type 0 where
  pub at : ℕ
  pub level : Text
  pub message : Text
  pub fields : List (Text × Text)

pub record Ring {ℓ} (A : Type ℓ) : Type ℓ where
  pub records : List A
  pub next : ℕ
  pub capacity : ℕ
  pub full : Bool

module _ {ℓ} {A : Type ℓ} where
  -- New, of a zero record. A capacity of 0 stands for every one that is not positive.
  unfoldable pub new : A → ℕ → Ring A
  new zero_record n =
      let capacity = if n == 0 then default_capacity else n in
      record {
        records = replicate capacity zero_record;
        next = 0;
        capacity = capacity;
        full = false;
      }

  unfoldable pub add : A → Ring A → Ring A
  add x r =
      let next = (r.next + 1) % r.capacity in
      record r { records = set r.records r.next x; next = next; full = next == 0 || r.full }

  unfoldable pub snapshot : Ring A → List A
  snapshot r = (if r.full then drop r.next r.records else []) ++ take r.next r.records

  -- Several records, the first one first.
  unfoldable pub add_all : List A → Ring A → Ring A
  unfolding add
  add_all [] r = r
  add_all (x ∷ xs) r = add_all xs (add x r)

-- A Handler: its ring and what With and WithGroup have added.
pub record Handler : Type 0 where
  pub ring : Ring Record
  pub attrs : List (Text × Text)
  pub group : Text

unfoldable pub key : Handler → Text → Text
key h name = if text_eq h.group [] then name else h.group ++ text "." ++ name

put_attrs : Handler → List (Text × Text) → List (Text × Text) → List (Text × Text)
unfolding key
put_attrs h [] fields = fields
put_attrs h ((name, value) ∷ attrs) fields = put_attrs h attrs (insert (key h name) value fields)

-- Handle, of a record's time, level, message and attributes.
unfoldable pub handle : ℕ → Text → Text → List (Text × Text) → Handler → Handler
unfolding add put_attrs
handle at level message attrs h =
    let entry : Record = record {
      at = at;
      level = level;
      message = message;
      fields = put_attrs h attrs (put_attrs h h.attrs []);
    } in
    record h { ring = add entry h.ring }

unfoldable pub with_attrs : List (Text × Text) → Handler → Handler
with_attrs attrs h = record h { attrs = h.attrs ++ attrs }

unfoldable pub with_group : Text → Handler → Handler
with_group name h = record h {
  group = if text_eq h.group [] then name else h.group ++ text "." ++ name;
}
