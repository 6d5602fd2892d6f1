-- ===== src/Ring/Order.antt =====
-- The ring shows the last records, oldest first.
use lctk.Prelude.{
  ℕ, zero, suc, ◌+◌, ◌-◌, ◌%◌, ◌≤◌, ◌<◌, ◌≡◌, refl, ap, sym, ◌∙◌, Bool, true, false, ◌||◌, ◌==◌,
  if◌then◌else◌, ◌⊎◌, Bool-cases, inl, inr, List, [], ◌∷◌, ◌++◌, length, length-append, length-set,
  length-drop, take-all, drop-all, drop-append, drop-suc, drop-nil, append_assoc, append_nil, take,
  drop, set, replicate, leb, arith,
}
use native.Mathlib.Nat.{mod_self, mod-eq_of_lt}
use lctk.Ring.{Ring, new, add, add_all, snapshot, default_capacity}

wrapped_end : (n capacity : ℕ) → n + 1 ≡ capacity → ((n + 1) % capacity) ≡ 0
wrapped_end n capacity e = ap (λ c. (n + 1) % c) (sym e) ∙ mod_self (n + 1)

wrapped_inside : (n capacity : ℕ) → n + 1 < capacity → ((n + 1) % capacity) ≡ suc n
wrapped_inside n capacity h = mod-eq_of_lt h ∙ omega arith

suc_not_zero : (n : ℕ) → (suc n == 0) ≡ false
suc_not_zero n = ground arith

wrapped :
    (n capacity : ℕ)
    → n < capacity
    → ((n + 1 ≡ capacity) × (((n + 1) % capacity) ≡ 0))
      ⊎ ((n + 1 < capacity) × (((n + 1) % capacity) ≡ n + 1))
wrapped n capacity h = elim (Bool-cases (n + 1 == capacity)) [
  | inl end ↦ let e : n + 1 ≡ capacity = ground (arith, end) in inl (e, wrapped_end n capacity e)
  | inr inner ↦ let l : n + 1 < capacity = ground (arith, inner, h) in inr (l, mod-eq_of_lt l)
]

module _ {ℓ} {A : Type ℓ} where
  take-set :
      (xs : List A) (n : ℕ) (x : A)
      → n < length xs
      → take (suc n) (set xs n x) ≡ take n xs ++ x ∷ []
  take-set [] n x h = absurd (omega (arith, h))
  take-set (y ∷ ys) zero x h = refl
  take-set (y ∷ ys) (suc n) x h = ap (λ r. y ∷ r) (take-set ys n x (omega (arith, h)))

  drop-set : (xs : List A) (n : ℕ) (x : A) → drop (suc n) (set xs n x) ≡ drop (suc n) xs
  drop-set [] n x = refl
  drop-set (y ∷ ys) zero x = refl
  drop-set (y ∷ ys) (suc n) x = drop-set ys n x

  -- The records from one position on, round the end: both forms of a snapshot.
  shown : ℕ → Bool → List A → List A
  shown n full xs = (if full then drop n xs else []) ++ take n xs

  -- One more record, where the position does not come to the end.
  shown-set :
      (xs : List A) (n : ℕ) (full : Bool) (x : A)
      → n < length xs
      → shown (suc n) full (set xs n x)
        ≡ (if full then drop 1 (shown n full xs) else shown n full xs) ++ x ∷ []
  unfolding shown
  shown-set xs n true x h =
      ap (λ r. r ++ take (suc n) (set xs n x)) (drop-set xs n x ∙ drop-suc xs n)
      ∙ (ap (λ r. drop 1 (drop n xs) ++ r) (take-set xs n x h)
          ∙ sym (append_assoc (drop 1 (drop n xs)) (take n xs) (x ∷ []))
          ∙ ap (λ r. r ++ x ∷ [])
              (sym (drop-append (drop n xs) (take n xs) 1 (omega (arith, h, length-drop n xs)))))
  shown-set xs n false x h = take-set xs n x h

  -- At the end the ring is full, and its records stand in order.
  shown-end :
      (xs : List A) (n : ℕ) (full : Bool) → length xs ≡ n → shown 0 true xs ≡ shown n full xs
  unfolding shown
  shown-end xs n true h =
      append_nil xs
      ∙ sym (take-all xs n (omega (arith, h)))
      ∙ ap (λ r. r ++ take n xs) (sym (drop-all xs n (omega (arith, h))))
  shown-end xs n false h = append_nil xs ∙ sym (take-all xs n (omega (arith, h)))

  shown-wrapped :
      (n capacity : ℕ) (full : Bool) (ys : List A)
      → n < capacity
      → length ys ≡ capacity
      → shown ((n + 1) % capacity) ((n + 1) % capacity == 0 || full) ys ≡ shown (suc n) full ys
  shown-wrapped n capacity full ys h len = elim (Bool-cases (n + 1 == capacity)) [
    | inl end ↦
        ap (λ m. shown m (m == 0 || full) ys) (wrapped_end n capacity (ground (arith, end)))
        ∙ shown-end ys (suc n) full (ground (arith, end, len))
    | inr inner ↦
        ap (λ m. shown m (m == 0 || full) ys) (wrapped_inside n capacity (ground (arith, inner, h)))
        ∙ ap (λ b. shown (suc n) (b || full) ys) (suc_not_zero n)
  ]

  -- One more record comes last, and where the ring is full the oldest goes.
  snapshot-add :
      (x : A) (r : Ring A)
      → length r.records ≡ r.capacity
      → r.next < r.capacity
      → snapshot (add x r) ≡ (if r.full then drop 1 (snapshot r) else snapshot r) ++ x ∷ []
  unfolding snapshot add shown
  snapshot-add x r fits inside =
      shown-wrapped r.next r.capacity r.full (set r.records r.next x) inside
        (length-set r.records r.next x ∙ fits)
      ∙ shown-set r.records r.next r.full x (omega (arith, fits, inside))

  -- What the ring is after some records.
  record Holds (xs : List A) (r : Ring A) : Type ℓ where
    fits : length r.records ≡ r.capacity
    inside : r.next < r.capacity
    filled : r.full ≡ leb r.capacity (length xs)
    at_count : (r.full ≡ true) ⊎ (r.next ≡ length xs)
    shows : snapshot r ≡ drop (length xs - r.capacity) xs

  shown-snoc :
      (full : Bool) (capacity : ℕ) (xs s : List A) (x : A)
      → full ≡ leb capacity (length xs)
      → 0 < capacity
      → s ≡ drop (length xs - capacity) xs
      → (if full then drop 1 s else s) ++ x ∷ []
        ≡ drop (length (xs ++ x ∷ []) - capacity) (xs ++ x ∷ [])
  shown-snoc true capacity xs s x f room e =
      let long : capacity ≤ length xs = ground (arith, f) in
      let k = length xs - capacity in
      let one_over : suc k ≡ length (xs ++ x ∷ []) - capacity =
        omega (arith, long, length-append xs (x ∷ [])) in
      ap (λ r. drop 1 r ++ x ∷ []) e
      ∙ ap (λ r. r ++ x ∷ []) (sym (drop-suc xs k))
      ∙ sym (drop-append xs (x ∷ []) (suc k) (omega (arith, long, room)))
      ∙ ap (λ m. drop m (xs ++ x ∷ [])) one_over
  shown-snoc false capacity xs s x f room e =
      let short : length xs < capacity = ground (arith, f) in
      let none_over : length xs - capacity ≡ 0 = omega (arith, short) in
      let still_none : 0 ≡ length (xs ++ x ∷ []) - capacity =
        omega (arith, short, length-append xs (x ∷ [])) in
      ap (λ r. r ++ x ∷ []) (e ∙ ap (λ m. drop m xs) none_over)
      ∙ ap (λ m. drop m (xs ++ x ∷ [])) still_none

  add-Holds : (xs : List A) (x : A) (r : Ring A) → Holds xs r → Holds (xs ++ x ∷ []) (add x r)
  unfolding add
  add-Holds xs x r h =
      let turn = wrapped r.next r.capacity h.inside in
      let more = length-append xs (x ∷ []) in
      record {
        fits = length-set r.records r.next x ∙ h.fits;
        inside = ground (arith, turn, h.inside);
        filled = ground (arith, turn, more, h.filled, h.at_count);
        at_count = ground (arith, turn, more, h.filled, h.at_count);
        shows =
            snapshot-add x r h.fits h.inside
            ∙ shown-snoc r.full r.capacity xs (snapshot r) x h.filled (omega (arith, h.inside))
                h.shows;
      }

  add_all-Holds : (xs ys : List A) (r : Ring A) → Holds xs r → Holds (xs ++ ys) (add_all ys r)
  unfolding add_all
  add_all-Holds xs [] r h = rw (append_nil xs) h
  add_all-Holds xs (y ∷ ys) r h =
      rw⁻¹ (append_assoc xs (y ∷ []) ys)
        (add_all-Holds (xs ++ y ∷ []) ys (add y r) (add-Holds xs y r h))

  length-replicate : (n : ℕ) (a : A) → length (replicate n a) ≡ n
  length-replicate zero a = refl
  length-replicate (suc n) a = ap suc (length-replicate n a)

  new-Holds : (zero_record : A) (n : ℕ) → Holds [] (new zero_record n)
  unfolding new snapshot
  new-Holds zero_record n =
      let capacity = if n == 0 then default_capacity else n in
      record {
        fits = length-replicate capacity zero_record;
        inside = ground arith;
        filled = ground arith;
        at_count = inr refl;
        shows = drop-nil (0 - capacity);
      }

  add_capacity : (x : A) (r : Ring A) → (add x r).capacity ≡ r.capacity
  unfolding add
  add_capacity x r = refl

  add_all-capacity : (xs : List A) (r : Ring A) → (add_all xs r).capacity ≡ r.capacity
  unfolding add_all
  add_all-capacity [] r = refl
  add_all-capacity (x ∷ xs) r = add_all-capacity xs (add x r) ∙ add_capacity x r

  -- A ring that starts empty shows, after any number of records, the last of them in their order,
  -- as many as its capacity; the capacity is 500 where 0 is given.
  pub snapshot-add_all :
      (zero_record : A) (n : ℕ) (xs : List A)
      → let capacity = if n == 0 then default_capacity else n in
        snapshot (add_all xs (new zero_record n)) ≡ drop (length xs - capacity) xs
  unfolding new
  snapshot-add_all zero_record n xs =
      (add_all-Holds [] xs (new zero_record n) (new-Holds zero_record n)).shows
      ∙ ap (λ c. drop (length xs - c) xs) (add_all-capacity xs (new zero_record n))
