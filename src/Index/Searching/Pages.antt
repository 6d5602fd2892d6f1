-- ===== src/Index/Searching/Pages.antt =====
-- The pages of a search, one after the other.
use lctk.Prelude.{
  ℕ, zero, suc, ◌+◌, ◌≤◌, ◌<◌, ◌≡◌, refl, ap, ◌∙◌, inl, inr, Bool-cases, true, false, List, [], ◌∷◌,
  ◌++◌, Text, text_eq, trim_bytes, ℤ, pos, negsuc, ltb, length, take, drop, take-all, append_nil,
  arith,
}
use lctk.Index.{State, ok}
use lctk.Index.Searching.{
  Cursor, no_cursor, token, check_limit, decode_cursor, min_of, page, search, all_pages,
}

module _ {A : Type 0} where
  drop-take_join : (xs : List A) (o e : ℕ) → o ≤ e → drop o (take e xs) ++ drop e xs ≡ drop o xs
  drop-take_join [] zero zero h = refl
  drop-take_join [] zero (suc e) h = refl
  drop-take_join [] (suc o) zero h = refl
  drop-take_join [] (suc o) (suc e) h = refl
  drop-take_join (x ∷ xs) zero zero h = refl
  drop-take_join (x ∷ xs) zero (suc e) h = ap (λ r. x ∷ r) (drop-take_join xs zero e (omega arith))
  drop-take_join (x ∷ xs) (suc o) zero h = absurd (omega (arith, h))
  drop-take_join (x ∷ xs) (suc o) (suc e) h = drop-take_join xs o e (omega (arith, h))

check_limit_pos : (limit : ℤ) (l : ℕ) → check_limit limit ≡ ok l → 0 < l
unfolding check_limit
check_limit_pos (negsuc n) l h = absurd (cc)
check_limit_pos (pos n) l h = ground arith

module _ {Match : Type 0} (s : State) (pattern : Text) (limit : ℤ) (l : ℕ) (found : List Match)
    (filled : text_eq (trim_bytes pattern) [] ≡ false) (bounded : check_limit limit ≡ ok l) where
  search-page :
      (start : Cursor) (offset : ℕ)
      → decode_cursor start s.generation ≡ ok offset
      → offset ≤ length found
      → search s (record { pattern = pattern; limit = limit; cursor = start }) true (ok found)
        ≡ ok (page s offset l found)
  unfolding search
  search-page start offset h inside = rw (filled, bounded, h) (ground (arith, inside))

  pages_from :
      (fuel : ℕ) (start : Cursor) (offset : ℕ)
      → decode_cursor start s.generation ≡ ok offset
      → offset ≤ length found
      → length found < fuel + offset
      → all_pages s fuel pattern limit found start ≡ ok (drop offset found)
  unfolding all_pages page min_of decode_cursor
  pages_from zero start offset h inside enough = absurd (omega (arith, inside, enough))
  pages_from (suc fuel) start offset h inside enough =
      rw (search-page start offset h inside) (elim (Bool-cases (ltb (offset + l) (length found))) [
        | inl more ↦
            let end : min_of (offset + l) (length found) ≡ offset + l = ground (arith, more) in
            let within : offset + l ≤ length found = ground (arith, more) in
            let forward = check_limit_pos limit l bounded in
            let next =
              pages_from fuel (token s.generation (pos (offset + l))) (offset + l) (ground arith)
                within (omega (arith, enough, forward)) in
            rw (end, more, next) (ap ok (drop-take_join found offset (offset + l) (omega arith)))
        | inr last ↦
            let end : min_of (offset + l) (length found) ≡ length found = ground (arith, last) in
            let done : ltb (length found) (length found) ≡ false = ground arith in
            rw (end, done)
              (ap ok (
                append_nil (drop offset (take (length found) found))
                ∙ ap (drop offset) (take-all found (length found) (omega arith))))
      ])

  -- If the pattern is not blank and the limit is accepted, a client that starts with no cursor
  -- and asks with each cursor it gets back receives, after at most one request more than there
  -- are matches, every match once and in order.
  pub all_pages_lem : all_pages s (suc (length found)) pattern limit found no_cursor ≡ ok found
  unfolding decode_cursor
  all_pages_lem = pages_from (suc (length found)) no_cursor 0 refl (omega arith) (omega arith)
