-- ===== src/Server/Storage/Blobs.antt =====
-- src/storage/local.rs as a store of blobs by name: the map that it implements where the file system
-- answers every call, and what it does where a write fails.
use memo_build.Prelude.{
  ℕ, ◌≡◌, refl, sym, ap, ◌∙◌, Bool, true, ◌&&◌, Option, none, some, List, [], ◌∷◌, inl, inr, arith,
  if◌then◌else◌, Bool-cases, take, Text, text_eq, text_eq_iff, text_eq_refl, subst, lookup, insert,
  remove, lookup-insert, lookup-remove,
}
use memo_build.Prelude.Results.{Result, ok, err, io_error}
use memo_build.Server.Storage.{
  FileSystem, Files, get_sharded_path, put_at, read_at, is_there, delete_at, put, get, exists,
  delete,
}
use memo_build.Server.Storage.Paths.{is_plain, is_directory, text_eq-get_sharded_path}

pub data StorageCall : Type 0 where
  put_call : (hash bytes : Text) → StorageCall
  get_call exists_call delete_call : (hash : Text) → StorageCall

pub data Answer : Type 0 where
  stored : Result Text → Answer
  found : Result (Option Text) → Answer
  present : Result Bool → Answer
  deleted : Result (Unit {0}) → Answer

unfoldable pub call_name : StorageCall → Text
call_name (put_call hash bytes) = hash
call_name (get_call hash) = hash
call_name (exists_call hash) = hash
call_name (delete_call hash) = hash

unfoldable pub all_plain : List StorageCall → Bool
unfolding call_name
all_plain [] = true
all_plain (c ∷ cs) = is_plain (call_name c) && all_plain cs

-- A call on the files.
unfoldable pub on_files : FileSystem → Text → StorageCall → Files → Answer × Files
on_files fs base_dir (put_call hash bytes) files =
    let (r, files') = put fs base_dir hash bytes files in (stored r, files')
on_files fs base_dir (get_call hash) files =
    let (r, files') = get fs base_dir hash files in (found r, files')
on_files fs base_dir (exists_call hash) files =
    let (r, files') = exists fs base_dir hash files in (present r, files')
on_files fs base_dir (delete_call hash) files =
    let (r, files') = delete fs base_dir hash files in (deleted r, files')

abbrev pub keep_first : Text → Text → Option Text → List (Text × Text) → List (Text × Text)
keep_first hash bytes none blobs = insert hash bytes blobs
keep_first hash bytes (some old) blobs = blobs

-- The call on a map from names to blobs, in which the first blob of a name stays.
unfoldable pub on_blobs : Text → StorageCall → List (Text × Text) → Answer × List (Text × Text)
unfolding insert lookup remove get_sharded_path
on_blobs base_dir (put_call hash bytes) blobs =
    (stored (ok (get_sharded_path base_dir hash)), keep_first hash bytes (lookup hash blobs) blobs)
on_blobs base_dir (get_call hash) blobs = (found (ok (lookup hash blobs)), blobs)
on_blobs base_dir (exists_call hash) blobs = (present (ok (is_there (lookup hash blobs))), blobs)
on_blobs base_dir (delete_call hash) blobs = (deleted (ok tt), remove hash blobs)

unfoldable pub answers {ℓ} :
    {S : Type ℓ} → (StorageCall → S → Answer × S) → List StorageCall → S → List Answer
answers step [] s = []
answers step (c ∷ cs) s = let (a, s') = step c s in a ∷ answers step cs s'

-- The file system answers every call.
pub record IsReliable (fs : FileSystem) : Type 0 where
  pub creates : (p : Text) → fs.creatable p ≡ true
  pub writes : (p : Text) → fs.write_limit p ≡ none
  pub reads : (p : Text) → fs.readable p ≡ true
  pub removes : (p : Text) → fs.removable p ≡ true

abbrev Represents : Text → Files → List (Text × Text) → Type 0
Represents base_dir files blobs =
    (h : Text) → is_plain h ≡ true → lookup (get_sharded_path base_dir h) files ≡ lookup h blobs

module _ (fs : FileSystem) (base_dir : Text) (reliable : IsReliable fs)
    (dir : is_directory base_dir ≡ true) where
  insert-Represents :
      (hash bytes : Text) (files : Files) (blobs : List (Text × Text))
      → is_plain hash ≡ true
      → Represents base_dir files blobs
      → Represents base_dir
          (insert (get_sharded_path base_dir hash) bytes files)
          (insert hash bytes blobs)
  insert-Represents hash bytes files blobs plain rep h ph =
      lookup-insert (get_sharded_path base_dir hash) (get_sharded_path base_dir h) bytes files
      ∙ rw (text_eq-get_sharded_path base_dir hash h dir plain ph, rep h ph)
          (sym (lookup-insert hash h bytes blobs))

  remove-Represents :
      (hash : Text) (files : Files) (blobs : List (Text × Text))
      → is_plain hash ≡ true
      → Represents base_dir files blobs
      → Represents base_dir (remove (get_sharded_path base_dir hash) files) (remove hash blobs)
  remove-Represents hash files blobs plain rep h ph =
      lookup-remove (get_sharded_path base_dir hash) (get_sharded_path base_dir h) files
      ∙ rw (text_eq-get_sharded_path base_dir hash h dir plain ph, rep h ph)
          (sym (lookup-remove hash h blobs))

  -- A call on the files and on the blobs that they represent.
  abbrev Agrees : StorageCall → Files → List (Text × Text) → Type 0
  Agrees c files blobs =
      ((on_files fs base_dir c files).0 ≡ (on_blobs base_dir c blobs).0)
      × Represents base_dir (on_files fs base_dir c files).1 (on_blobs base_dir c blobs).1

  put_at-Agrees :
      (hash bytes : Text) (files : Files) (blobs : List (Text × Text)) (o : Option Text)
      → is_plain hash ≡ true
      → Represents base_dir files blobs
      → let path = get_sharded_path base_dir hash in
        ((put_at fs path bytes o files).0 ≡ ok path)
        × Represents base_dir (put_at fs path bytes o files).1 (keep_first hash bytes o blobs)
  put_at-Agrees hash bytes files blobs (some old) plain rep = (refl, rep)
  put_at-Agrees hash bytes files blobs none plain rep =
      let path = get_sharded_path base_dir hash in
      rw (reliable.creates path, reliable.writes path)
        (refl, insert-Represents hash bytes files blobs plain rep)

  read_at-ok : (path : Text) (o : Option Text) → read_at fs path o ≡ ok o
  read_at-ok path none = refl
  read_at-ok path (some bytes) = rw (reliable.reads path) refl

  insert-none-Represents :
      (hash : Text) (files : Files) (blobs : List (Text × Text))
      → is_plain hash ≡ true
      → lookup (get_sharded_path base_dir hash) files ≡ none
      → Represents base_dir files blobs
      → Represents base_dir files (remove hash blobs)
  insert-none-Represents hash files blobs plain absent rep h ph =
      elim (Bool-cases (text_eq hash h)) [
        | inl same ↦
            let e = (text_eq_iff hash h).0 same in
            ap (λ k. lookup (get_sharded_path base_dir k) files) (sym e)
            ∙ absent
            ∙ sym (lookup-remove hash h blobs ∙ ap (λ b. if b then none else lookup h blobs) same)
        | inr other ↦
            rep h ph
            ∙ sym (lookup-remove hash h blobs ∙ ap (λ b. if b then none else lookup h blobs) other)
      ]

  delete_at-Agrees :
      (hash : Text) (files : Files) (blobs : List (Text × Text)) (o : Option Text)
      → lookup (get_sharded_path base_dir hash) files ≡ o
      → is_plain hash ≡ true
      → Represents base_dir files blobs
      → let path = get_sharded_path base_dir hash in
        ((delete_at fs path o files).0 ≡ ok tt)
        × Represents base_dir (delete_at fs path o files).1 (remove hash blobs)
  delete_at-Agrees hash files blobs none absent plain rep =
      (refl, insert-none-Represents hash files blobs plain absent rep)
  delete_at-Agrees hash files blobs (some bytes) there plain rep =
      rw (reliable.removes (get_sharded_path base_dir hash))
        (refl, remove-Represents hash files blobs plain rep)

  on_files-Agrees :
      (c : StorageCall) (files : Files) (blobs : List (Text × Text))
      → is_plain (call_name c) ≡ true
      → Represents base_dir files blobs
      → Agrees c files blobs
  unfolding on_files on_blobs call_name put get exists delete
  on_files-Agrees (put_call hash bytes) files blobs plain rep =
      let path = get_sharded_path base_dir hash in
      let (a, r) = put_at-Agrees hash bytes files blobs (lookup path files) plain rep in
      (
        ap stored a,
        subst
            (λ o.
              Represents base_dir (put_at fs path bytes (lookup path files) files).1
                (keep_first hash bytes o blobs))
            (rep hash plain) r,
      )
  on_files-Agrees (get_call hash) files blobs plain rep =
      let path = get_sharded_path base_dir hash in
      (ap found (read_at-ok path (lookup path files) ∙ ap ok (rep hash plain)), rep)
  on_files-Agrees (exists_call hash) files blobs plain rep =
      (ap (λ o. present (ok (is_there o))) (rep hash plain), rep)
  on_files-Agrees (delete_call hash) files blobs plain rep =
      let path = get_sharded_path base_dir hash in
      let (a, r) = delete_at-Agrees hash files blobs (lookup path files) refl plain rep in
      (ap deleted a, r)

  answers-Represents :
      (cs : List StorageCall) (files : Files) (blobs : List (Text × Text))
      → all_plain cs ≡ true
      → Represents base_dir files blobs
      → answers (on_files fs base_dir) cs files ≡ answers (on_blobs base_dir) cs blobs
  unfolding answers all_plain
  answers-Represents [] files blobs plain rep = refl
  answers-Represents (c ∷ cs) files blobs plain rep =
      let (a, r) = on_files-Agrees c files blobs (ground arith) rep in
      let rest =
        answers-Represents cs (on_files fs base_dir c files).1 (on_blobs base_dir c blobs).1
          (ground arith) r in
      ap (λ x. x ∷ answers (on_files fs base_dir) cs (on_files fs base_dir c files).1) a
      ∙ ap (λ xs. (on_blobs base_dir c blobs).0 ∷ xs) rest

-- Where the file system answers every call and the base directory's path is not empty and does not end
-- in a separator, the storage on an empty directory gives, to any sequence of calls whose names have
-- at least four characters and no separator, the answers of a map from names to blobs in which the
-- first blob of a name stays until it is deleted.
pub answers-on_files :
    (fs : FileSystem) (base_dir : Text) (calls : List StorageCall)
    → IsReliable fs
    → is_directory base_dir ≡ true
    → all_plain calls ≡ true
    → answers (on_files fs base_dir) calls [] ≡ answers (on_blobs base_dir) calls []
unfolding lookup
answers-on_files fs base_dir calls reliable dir plain =
    answers-Represents fs base_dir reliable dir calls [] [] plain (λ h ph. refl)

-- A write that failed, after `n` bytes, leaves those bytes under the name for good: the call fails, the
-- next call with the same blob, even where every write now succeeds, reports success, and
-- reading the name then gives the first `n` bytes.
pub get-put-put :
    (failing fs : FileSystem) (base_dir hash bytes : Text) (n : ℕ) (files : Files)
    → let path = get_sharded_path base_dir hash in
      lookup path files ≡ none
      → failing.creatable path ≡ true
      → failing.write_limit path ≡ some n
      → fs.readable path ≡ true
      → let (first, after_first) = put failing base_dir hash bytes files in
        let (second, after_second) = put fs base_dir hash bytes after_first in
        (first ≡ err io_error)
        × (second ≡ ok path)
        × ((get fs base_dir hash after_second).0 ≡ ok (some (take n bytes)))
unfolding put get
get-put-put failing fs base_dir hash bytes n files absent creates stops reads =
    let path = get_sharded_path base_dir hash in
    let kept : lookup path (insert path (take n bytes) files) ≡ some (take n bytes) =
      lookup-insert path path (take n bytes) files ∙ rw (text_eq_refl path) refl in
    rw (absent, creates, stops, kept, kept, reads) (refl, refl, refl)
