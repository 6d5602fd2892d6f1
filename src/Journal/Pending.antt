-- ===== src/Journal/Pending.antt =====
-- The map of pending entries and its listing by sequence: `put`, `delete_through`, `in_order`.
use lctk.Prelude.{
  ℕ, ◌≤◌, ◌<◌, ◌≡◌, refl, sym, ◌≢◌, ◌⊎◌, inl, inr, List, [], ◌∷◌, Text, text_eq, text_eq_iff,
  Bool-cases, All, Any, All-mono, arith, length, ◌+◌, ◌∙◌,
}
use lctk.Journal.{Entry, put, delete_through, insert_by_seq, in_order}

-- No two entries share a path or a sequence number.
abbrev pub Apart : Entry → Entry → Type 0
Apart f g = (g.path ≢ f.path) × (g.seq ≢ f.seq)

abbrev pub Distinct : List Entry → Type 0
Distinct [] = Unit {0}
Distinct (e ∷ es) = All (Apart e) es × Distinct es

abbrev pub Within : ℕ → ℕ → Entry → Type 0
Within low high e = (low < e.seq) × (e.seq ≤ high)

-- The path was observed after a sequence number, and the entry for it says so.
abbrev pub Has : Text → ℕ → List Entry → Type 0
Has p n = Any (λ e. (e.path ≡ p) × (n < e.seq))

module _ (P : Entry → Type 0) where
  pub All-put : (e : Entry) (es : List Entry) → P e → All P es → All P (put e es)
  unfolding put
  All-put e [] he h = (he, tt)
  All-put e (f ∷ fs) he h = ground (arith, All-put e fs he h.1)

  pub All-delete : (n : ℕ) (es : List Entry) → All P es → All P (delete_through n es)
  unfolding delete_through
  All-delete n [] h = tt
  All-delete n (e ∷ es) h = ground (arith, All-delete n es h.1)

  pub All-insert_by_seq :
      (e : Entry) (es : List Entry) → P e → All P es → All P (insert_by_seq e es)
  unfolding insert_by_seq
  All-insert_by_seq e [] he h = (he, tt)
  All-insert_by_seq e (f ∷ fs) he h = ground (arith, All-insert_by_seq e fs he h.1)

  pub Any-insert_by_seq :
      (e : Entry) (es : List Entry) → P e ⊎ Any P es → Any P (insert_by_seq e es)
  unfolding insert_by_seq
  Any-insert_by_seq e [] h = h
  Any-insert_by_seq e (f ∷ fs) h = ground (arith, Any-insert_by_seq e fs)

Apart-same_path :
    (e f : Entry) (fs : List Entry)
    → f.path ≡ e.path
    → All (λ g. g.seq < e.seq) fs
    → All (Apart f) fs
    → All (Apart e) fs
Apart-same_path e f [] p b a = tt
Apart-same_path e f (g ∷ fs) p b a =
    ((λ q. a.0.0 (q ∙ sym p), λ q. absurd (omega arith)), Apart-same_path e f fs p b.1 a.1)

-- What is put in has a number of its own.
pub Distinct-put :
    (e : Entry) (es : List Entry) → All (λ f. f.seq < e.seq) es → Distinct es → Distinct (put e es)
unfolding put
Distinct-put e [] b d = (tt, tt)
Distinct-put e (f ∷ fs) b d = elim (Bool-cases (text_eq f.path e.path)) [
  | inl same ↦ rw same (Apart-same_path e f fs ((text_eq_iff _ _).0 same) b.1 d.0, d.1)
  | inr other ↦ rw other (
    All-put (Apart f) e fs
        (λ q. cc (other, (text_eq_iff f.path e.path).1 (sym q)), λ q. absurd (omega arith)) d.0,
    Distinct-put e fs b.1 d.1,
  )
]

pub Distinct-delete : (n : ℕ) (es : List Entry) → Distinct es → Distinct (delete_through n es)
unfolding delete_through
Distinct-delete n [] d = tt
Distinct-delete n (e ∷ es) d =
    ground (arith, All-delete (Apart e) n es d.0, Distinct-delete n es d.1)

pub length-put-le : (e : Entry) (es : List Entry) → length (put e es) ≤ length es + 1
unfolding put
length-put-le e [] = omega arith
length-put-le e (f ∷ fs) = ground (arith, length-put-le e fs)

pub length-delete-le : (n : ℕ) (es : List Entry) → length (delete_through n es) ≤ length es
unfolding delete_through
length-delete-le n [] = omega arith
length-delete-le n (e ∷ es) = ground (arith, length-delete-le n es)

pub delete_through-above : (n : ℕ) (es : List Entry) → All (λ e. n < e.seq) (delete_through n es)
unfolding delete_through
delete_through-above n [] = tt
delete_through-above n (e ∷ es) = ground (arith, delete_through-above n es)

-- The entry put in is found, and so is every path that was there.
pub Has-put_self : (e : Entry) (n : ℕ) (es : List Entry) → n < e.seq → Has e.path n (put e es)
unfolding put
Has-put_self e n [] h = inl (refl, h)
Has-put_self e n (f ∷ fs) h = ground (arith, Has-put_self e n fs h)

pub Has-put :
    (e : Entry) (p : Text) (n : ℕ) (es : List Entry) → n < e.seq → Has p n es → Has p n (put e es)
unfolding put
Has-put e p n [] h has = absurd has
Has-put e p n (f ∷ fs) h has = ground (arith, text_eq_iff f.path e.path, Has-put e p n fs h)

-- A deletion through `m` leaves what was observed after `m`.
pub Has-delete :
    (p : Text) (m n : ℕ) (es : List Entry) → m ≤ n → Has p n es → Has p n (delete_through m es)
unfolding delete_through
Has-delete p m n [] h has = absurd has
Has-delete p m n (e ∷ es) h has = ground (arith, Has-delete p m n es h)

-- Listing by sequence: strictly increasing, and with the same paths.
abbrev pub Increasing : List Entry → Type 0
Increasing [] = Unit {0}
Increasing (e ∷ es) = All (λ f. e.seq < f.seq) es × Increasing es

All-above :
    (e f : Entry) (fs : List Entry)
    → e.seq < f.seq
    → All (λ g. f.seq < g.seq) fs
    → All (λ g. e.seq < g.seq) fs
All-above e f [] h a = tt
All-above e f (g ∷ fs) h a = (omega arith, All-above e f fs h a.1)

Increasing-insert :
    (e : Entry) (fs : List Entry)
    → All (λ f. f.seq ≢ e.seq) fs
    → Increasing fs
    → Increasing (insert_by_seq e fs)
unfolding insert_by_seq
Increasing-insert e [] a i = (tt, tt)
Increasing-insert e (f ∷ fs) a i = ground (
  arith,
  All-above e f fs,
  All-insert_by_seq (λ g. f.seq < g.seq) e fs,
  Increasing-insert e fs a.1 i.1,
)

pub in_order-All : (P : Entry → Type 0) (es : List Entry) → All P es → All P (in_order es)
unfolding in_order
in_order-All P [] h = tt
in_order-All P (e ∷ es) h = All-insert_by_seq P e (in_order es) h.0 (in_order-All P es h.1)

pub in_order-Any : (P : Entry → Type 0) (es : List Entry) → Any P es → Any P (in_order es)
unfolding in_order
in_order-Any P [] h = h
in_order-Any P (e ∷ es) (inl h) = Any-insert_by_seq P e (in_order es) (inl h)
in_order-Any P (e ∷ es) (inr h) = Any-insert_by_seq P e (in_order es) (inr (in_order-Any P es h))

pub in_order-Increasing : (es : List Entry) → Distinct es → Increasing (in_order es)
unfolding in_order
in_order-Increasing [] d = tt
in_order-Increasing (e ∷ es) d =
    Increasing-insert e (in_order es)
      (in_order-All (λ f. f.seq ≢ e.seq) es
        (All-mono (Apart e) (λ f. f.seq ≢ e.seq) es (λ f a. a.1) d.0))
      (in_order-Increasing es d.1)
