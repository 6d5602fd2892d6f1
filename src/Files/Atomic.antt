-- ===== src/Files/Atomic.antt =====
-- What a reader of the document can see while and after it is replaced.
use lctk.Prelude.{ℕ, zero, suc, ◌≡◌, refl, ◌≢◌, ◌⊎◌, inl, inr, none, some, arith}
use lctk.Files.{Disk, Faults, whole, write_file, stopped_after}

module _ {ℓ} {D : Type ℓ} where
  -- A write returns no error and leaves the whole new document, or returns an error and leaves
  -- the document as it was.
  pub write_file-all_or_nothing :
      (f : Faults) (d : D) (disk : Disk D)
      → (((write_file f d disk).1 ≡ none) × ((write_file f d disk).0.target ≡ some (whole d)))
        ⊎ (((write_file f d disk).1 ≢ none) × ((write_file f d disk).0.target ≡ disk.target))
  unfolding write_file
  write_file-all_or_nothing f d disk = ground arith

  -- Wherever the machine stops, the document is the old one or the new one in full.
  pub stopped_after-whole :
      (n : ℕ) (d : D) (disk : Disk D)
      → ((stopped_after n d disk).target ≡ disk.target)
        ⊎ ((stopped_after n d disk).target ≡ some (whole d))
  unfolding stopped_after
  stopped_after-whole zero d disk = inl refl
  stopped_after-whole (suc zero) d disk = inl refl
  stopped_after-whole (suc (suc zero)) d disk = inl refl
  stopped_after-whole (suc (suc (suc zero))) d disk = inl refl
  stopped_after-whole (suc (suc (suc (suc n)))) d disk = inr refl
