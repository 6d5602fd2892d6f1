-- ===== src/Index/Updating/Documents.antt =====
-- The documents that a build over shards hands to the engine, and what the code relies on of it.
use lctk.Prelude.{
  map, ◌+◌, ◌<◌, ◌≡◌, refl, sym, inl, inr, Bool-cases, true, ◌||◌, some, List, [], ◌∷◌, ◌++◌,
  replicate, Text, text_eq, text_eq_iff, subst, if◌then◌else◌, arith,
}
use lctk.Ignore.{contains}
use lctk.Index.{
  Limits, ok, Reading, bytes, missing, unreadable, first_step_ok, unless, context_error,
}
use lctk.Index.Batch.Tracking.{occurrences}
use lctk.Index.Building.{Run, Engine, insert_name, sort_names, read_answer, read_files}

-- The contents of the files of a name.
unfoldable pub matching : Text → List (Text × Text) → List Text
matching k [] = []
matching k ((n, content) ∷ ds) =
    let rest = matching k ds in if text_eq n k then content ∷ rest else rest

-- What the code relies on: an index that starts empty holds no document, and a build keeps the documents
-- of the shards it starts from but those of the retracted names, and adds one for each file it is given.
-- What the engine stores for a content is its own affair: it puts a marker in the place of a content
-- that it does not index, such as one that is too short or binary.
pub record IsEngine (E : Engine) (Document : Type 0) (stored : Text → Document)
    (documents : E.Shards → Text → List Document) : Type 0 where
  pub no_documents : (k : Text) → documents E.no_shards k ≡ []
  pub documents-index_files :
      (base built : E.Shards) (retracted : List Text) (files : List (Text × Text)) (k : Text)
      → E.index_files base retracted files ≡ some built
      → documents built k
        ≡ (if contains k retracted then [] else documents base k) ++ map stored (matching k files)

occurrences-insert_name :
    (k n : Text) (ns : List Text)
    → occurrences k (insert_name n ns) ≡ (if text_eq n k then 1 else 0) + occurrences k ns
unfolding occurrences insert_name
occurrences-insert_name k n [] = ground arith
occurrences-insert_name k n (m ∷ ns) = ground (arith, occurrences-insert_name k n ns)

pub occurrences-sort_names :
    (k : Text) (ns : List Text) → occurrences k (sort_names ns) ≡ occurrences k ns
unfolding occurrences sort_names
occurrences-sort_names k [] = refl
occurrences-sort_names k (n ∷ ns) =
    ground (arith, occurrences-insert_name k n (sort_names ns), occurrences-sort_names k ns)

contains-insert_name :
    (k n : Text) (ns : List Text) → contains k (insert_name n ns) ≡ (text_eq n k || contains k ns)
unfolding contains insert_name
contains-insert_name k n [] = ground arith
contains-insert_name k n (m ∷ ns) = ground (arith, contains-insert_name k n ns)

pub contains-sort_names : (k : Text) (ns : List Text) → contains k (sort_names ns) ≡ contains k ns
unfolding contains sort_names
contains-sort_names k [] = refl
contains-sort_names k (n ∷ ns) =
    ground (arith, contains-insert_name k n (sort_names ns), contains-sort_names k ns)

pub occurrences-contained :
    (k : Text) (ns : List Text) → contains k ns ≡ true → 0 < occurrences k ns
unfolding contains occurrences
occurrences-contained k [] h = absurd (cc)
occurrences-contained k (n ∷ ns) h = ground (arith, occurrences-contained k ns)

module _ (E : Engine) (limits : Limits) (r : Run E.Shards) (k : Text) where
  matching-read_answer :
      (n : Text) (reading : Reading) (document : List (Text × Text)) (content : Text)
      → read_answer n reading ≡ ok document
      → (text_eq n k ≡ true → reading ≡ bytes content)
      → matching k document ≡ (if text_eq n k then content ∷ [] else [])
  unfolding matching read_answer
  matching-read_answer n (bytes c) document content h same =
      let e : (n, c) ∷ [] ≡ document = cc in
      rw (← e) (elim (Bool-cases (text_eq n k)) [
        | inl match ↦ ground (arith, match, same match)
        | inr other ↦ ground (arith, other)
      ])
  matching-read_answer n missing document content h same =
      let e : [] ≡ document = cc in
      rw (← e) (elim (Bool-cases (text_eq n k)) [
        | inl match ↦ absurd (ground (arith, same match))
        | inr other ↦ ground (arith, other)
      ])
  matching-read_answer n unreadable document content h same = cc

  matching-append :
      (ds es : List (Text × Text)) → matching k (ds ++ es) ≡ matching k ds ++ matching k es
  unfolding matching
  matching-append [] es = refl
  matching-append ((n, c) ∷ ds) es = ground (arith, matching-append ds es)

  -- A name that is read once for each time it is listed.
  pub matching-read_files :
      (names : List Text) (documents : List (Text × Text)) (content : Text)
      → read_files E limits r names ≡ ok documents
      → (contains k names ≡ true → r.workspace.content k ≡ bytes content)
      → matching k documents ≡ replicate (occurrences k names) content
  unfolding read_files occurrences contains matching
  matching-read_files [] documents content h same = let e : [] ≡ documents = cc in rw (← e) refl
  matching-read_files (n ∷ names) documents content h same =
      let (_, _, read) = first_step_ok (unless (r.cancelled_at n) context_error) _ h in
      let (document, one, others) = first_step_ok (read_answer n (r.workspace.content n)) _ read in
      let (rest, later, joined) = first_step_ok (read_files E limits r names) _ others in
      let e : document ++ rest ≡ documents = cc in
      let here =
        matching-read_answer n (r.workspace.content n) document content one
          (λ (found : text_eq n k ≡ true).
            subst (λ t. r.workspace.content t ≡ bytes content) (sym ((text_eq_iff n k).0 found))
              (same (ground (arith, found)))) in
      let there =
        matching-read_files names rest content later
          (λ (listed : contains k names ≡ true). same (ground (arith, listed))) in
      rw (← e) (ground (arith, matching-append document rest, here, there))
