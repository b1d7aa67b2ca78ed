-- ===== src/Hasher/Determinism.antt =====
-- src/hasher/file_hasher.rs: what the hash of a directory does not depend on.
use mathlib.Core.List.{Perm, foldr}
use mathlib.Core.List.Perm
use memo_build.Prelude.{
  ◌≡◌, refl, sym, ap, ◌∙◌, Bool, List, [], ◌∷◌, if◌then◌else◌, inl, inr, Bool-cases, Text,
}
use memo_build.Prelude.Sorting.{IsTotalOrder, sort_by, insert_by, insert_by-swap}
use memo_build.Hasher.{
  DirEntry, walk_error, other, a_file, Disk, visible, walk_dir, digest, hash_files, hash_dir,
}

module _ (blake3 : Text → Text) (disk : Disk) (is_ignored : Text → Bool) (root : Text) where
  -- An entry of the walk, put into the sorted files.
  add_entry : DirEntry → List Text → List Text
  add_entry walk_error paths = paths
  add_entry (other path) paths = paths
  add_entry (a_file path) paths =
      if is_ignored (disk.relative root path) then paths else insert_by disk.leb path paths

  add_entry-swap :
      (a b : DirEntry) (paths : List Text)
      → IsTotalOrder disk.leb
      → add_entry a (add_entry b paths) ≡ add_entry b (add_entry a paths)
  unfolding add_entry
  add_entry-swap walk_error b paths order = refl
  add_entry-swap (other path) b paths order = refl
  add_entry-swap (a_file path) walk_error paths order = refl
  add_entry-swap (a_file path) (other path') paths order = refl
  add_entry-swap (a_file path) (a_file path') paths order =
      elim (Bool-cases (is_ignored (disk.relative root path))) [
        | inl ignored ↦ rw ignored refl
        | inr kept ↦ elim (Bool-cases (is_ignored (disk.relative root path'))) [
          | inl ignored ↦ rw (kept, ignored) refl
          | inr kept' ↦ rw (kept, kept') (insert_by-swap disk.leb path path' paths order)
        ]
      ]

  visible-foldr :
      (walk : List DirEntry)
      → sort_by disk.leb (visible blake3 disk is_ignored root walk) ≡ foldr add_entry [] walk
  unfolding visible add_entry sort_by
  visible-foldr [] = refl
  visible-foldr (walk_error ∷ walk) = visible-foldr walk
  visible-foldr (other path ∷ walk) = visible-foldr walk
  visible-foldr (a_file path ∷ walk) = elim (Bool-cases (is_ignored (disk.relative root path))) [
    | inl ignored ↦ rw ignored (visible-foldr walk)
    | inr kept ↦ rw kept (ap (insert_by disk.leb path) (visible-foldr walk))
  ]

  paths-IsSet : IsSet (List Text)
  paths-IsSet = hlevel

  visible-Perm :
      (walk walk' : List DirEntry)
      → IsTotalOrder disk.leb
      → Perm walk walk'
      → sort_by disk.leb (visible blake3 disk is_ignored root walk)
        ≡ sort_by disk.leb (visible blake3 disk is_ignored root walk')
  visible-Perm walk walk' order perm =
      visible-foldr walk
      ∙ Perm.foldr-eq {B = List Text} paths-IsSet add_entry (λ a b zs. add_entry-swap a b zs order)
          perm []
      ∙ sym (visible-foldr walk')

-- Where paths are totally ordered, a directory has the same hash, or an error with both walks, in whatever
-- order a walk comes to its entries, those that are ignored and those that cannot be read included.
pub hash_dir-Perm :
    (blake3 : Text → Text) (disk : Disk) (is_ignored : Text → Bool) (root : Text)
    (walk : Text → List DirEntry)
    → IsTotalOrder disk.leb
    → Perm (disk.walk root) (walk root)
    → hash_dir blake3 disk is_ignored root
      ≡ hash_dir blake3 (record disk { walk = walk }) is_ignored root
unfolding hash_dir walk_dir
hash_dir-Perm blake3 disk is_ignored root walk order perm =
    ap (λ paths. digest blake3 disk is_ignored (hash_files blake3 disk is_ignored root paths))
      (visible-Perm blake3 disk is_ignored root (disk.walk root) (walk root) order perm)
