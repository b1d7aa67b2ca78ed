-- ===== src/Server/Handlers/Integrity.antt =====
-- src/server/mod.rs: what is stored under a hash, whatever requests the server gets.
use memo_build.Prelude.{
  ltb, length, false, ℕ, ◌≡◌, refl, sym, ap, ◌∙◌, Bool, true, Option, none, some, List, [], inl,
  inr, Bool-cases, Option-cases, Text, text_eq, text_eq_iff, text_eq_refl, subst, lookup, insert,
  remove, lookup-insert, lookup-remove, some_inj,
}
use memo_build.Prelude.Results.{Result, ok, err}
use memo_build.Server.Storage as Storage
use memo_build.Server.Storage.{
  ArtifactStorage, FileSystem, Files, local_storage, get_sharded_path, put_at, delete_at, read_at,
}
use memo_build.Server.Storage.Paths.{is_plain, is_directory, text_eq-get_sharded_path}
use memo_build.Server.Storage.Blobs.{IsReliable}
use memo_build.Server.Metadata.{Db, new_db}
use memo_build.Server.Handlers as Handlers
use memo_build.Server.Handlers.{
  MetadataStore, AppState, Response, Handler, body_limit, ok_200, created_201, no_body, bytes,
  on_storage, on_metadata, respond, match_ok, reply, delete_entries, delete_layers,
}
use memo_build.Server.Handlers.Keeps.{IsContentStore, route-Keeps, run_requests-Intact}
use memo_build.Server.Handlers.Requests.{sqlite, Request, put_cache, route, run_requests}

module _ (fs : FileSystem) (base_dir : Text) (blake3 : Text → Text) where
  -- Every blob that a name stands for has that name as its hash.
  abbrev pub AllIntact : Files → Type 0
  AllIntact files =
      (h body : Text)
      → is_plain h ≡ true
      → lookup (get_sharded_path base_dir h) files ≡ some body
      → blake3 body ≡ h

  empty-AllIntact : AllIntact []
  unfolding lookup
  empty-AllIntact h body plain there = cc there

  module _ (writes : (p : Text) → fs.write_limit p ≡ none) (dir : is_directory base_dir ≡ true)
      (named : (body : Text) → is_plain (blake3 body) ≡ true) where
    insert-AllIntact :
        (body : Text) (files : Files)
        → AllIntact files
        → AllIntact (insert (get_sharded_path base_dir (blake3 body)) body files)
    insert-AllIntact body files i h other plain there =
        let name = blake3 body in
        let e =
          sym (
            lookup-insert (get_sharded_path base_dir name) (get_sharded_path base_dir h) body files)
          ∙ there in
        elim (Bool-cases (text_eq name h)) [
          | inl same ↦
              let here =
                rw (text_eq-get_sharded_path base_dir name h dir (named body) plain, same) at e in
              ap blake3 (sym (some_inj here)) ∙ (text_eq_iff name h).0 same
          | inr differs ↦
              let here =
                rw (text_eq-get_sharded_path base_dir name h dir (named body) plain, differs) at
                  e in
              i h other plain here
        ]

    put_at-AllIntact :
        (body : Text) (o : Option Text) (files : Files)
        → AllIntact files
        → AllIntact (put_at fs (get_sharded_path base_dir (blake3 body)) body o files).1
    put_at-AllIntact body (some old) files i = i
    put_at-AllIntact body none files i =
        let path = get_sharded_path base_dir (blake3 body) in
        elim (Bool-cases (fs.creatable path)) [
          | inl creates ↦ rw (creates, writes path) (insert-AllIntact body files i)
          | inr fails ↦ rw fails i
        ]

    remove-AllIntact :
        (path : Text) (files : Files) → AllIntact files → AllIntact (remove path files)
    remove-AllIntact path files i h body plain there =
        let e = sym (lookup-remove path (get_sharded_path base_dir h) files) ∙ there in
        elim (Bool-cases (text_eq path (get_sharded_path base_dir h))) [
          | inl same ↦ let gone = rw same at e in cc gone
          | inr differs ↦ i h body plain (rw differs at e)
        ]

    delete_at-AllIntact :
        (path : Text) (o : Option Text) (files : Files)
        → AllIntact files
        → AllIntact (delete_at fs path o files).1
    delete_at-AllIntact path none files i = i
    delete_at-AllIntact path (some old) files i = elim (Bool-cases (fs.removable path)) [
      | inl removes ↦ rw removes (remove-AllIntact path files i)
      | inr fails ↦ rw fails i
    ]

    local_storage-IsContentStore : IsContentStore (local_storage fs base_dir) blake3 AllIntact
    unfolding Storage.put Storage.get Storage.delete
    local_storage-IsContentStore = record {
      put_Intact = λ hash body files e.
          subst (λ h. AllIntact files → AllIntact (Storage.put fs base_dir h body files).1) e
            (put_at-AllIntact body (lookup (get_sharded_path base_dir (blake3 body)) files) files);
      get_Intact = λ hash files i. i;
      delete_Intact = λ hash files.
          delete_at-AllIntact (get_sharded_path base_dir hash)
            (lookup (get_sharded_path base_dir hash) files) files;
    }

read_at-some :
    (fs : FileSystem) (path : Text) (o : Option Text) (body : Text)
    → read_at fs path o ≡ ok (some body)
    → o ≡ some body
read_at-some fs path none body e = cc
read_at-some fs path (some old) body e = elim (Bool-cases (fs.readable path)) [
  | inl reads ↦ let e' = rw reads at e in cc e'
  | inr fails ↦ let e' = rw fails at e in cc e'
]

module _ {S M : Type 0} (store : ArtifactStorage S) (meta : MetadataStore M)
    (blake3 : Text → Text) where
  get_found-bytes :
      (hash : Text) (r : Result (Option Text)) (st : AppState S M) (body : Text)
      → (respond r (Handlers.get_found store meta blake3 hash) st).0 ≡ (ok_200, bytes body)
      → r ≡ ok (some body)
  get_found-bytes hash (ok (some data_)) st body e = cc
  get_found-bytes hash (ok none) st body e = cc
  get_found-bytes hash (err x) st body e = cc

-- The server before the first request.
abbrev pub new_server : {M : Type 0} → M → AppState Files M
new_server m = record { storage = []; metadata = m; current_dag = none }

-- Where no write of a file stops midway, the base directory's path is not empty and does not end in a
-- separator, and hashes have at least four characters and no separator: after any requests to a new
-- server, on any metadata store, a GET of the artifact of a hash of that form that is answered 200 with a
-- body is answered with a blob whose hash it is.
pub get_artifact-IsIntact :
    {M : Type 0} (meta : MetadataStore M) (m : M) (fs : FileSystem) (base_dir : Text)
    (blake3 : Text → Text)
    → ((p : Text) → fs.write_limit p ≡ none)
    → is_directory base_dir ≡ true
    → ((body : Text) → is_plain (blake3 body) ≡ true)
    → (rs : List Request) (hash body : Text) → is_plain hash ≡ true
    → let st = run_requests (local_storage fs base_dir) meta blake3 rs (new_server m) in
      (Handlers.get_artifact (local_storage fs base_dir) meta blake3 hash st).0
        ≡ (ok_200, bytes body)
      → blake3 body ≡ hash
unfolding Handlers.get_artifact Storage.get lookup
get_artifact-IsIntact meta m fs base_dir blake3 writes dir named rs hash body plain e =
    let store = local_storage fs base_dir in
    let st = run_requests store meta blake3 rs (new_server m) in
    let path = get_sharded_path base_dir hash in
    let read =
      get_found-bytes store meta blake3 hash (read_at fs path (lookup path st.storage)) st body e in
    let content = local_storage-IsContentStore fs base_dir blake3 writes dir named in
    run_requests-Intact store meta blake3 (AllIntact fs base_dir blake3) content rs (new_server m)
      (empty-AllIntact fs base_dir blake3) hash body plain
      (read_at-some fs path (lookup path st.storage) body read)

module _ (fs : FileSystem) (base_dir : Text) (blake3 : Text → Text) (fk : Bool) (now : Text)
    (cutoff : ℕ → Text) (reliable : IsReliable fs) where
  get_artifact-found :
      (hash kept : Text) (st : AppState Files Db)
      → lookup (get_sharded_path base_dir hash) st.storage ≡ some kept
      → (Handlers.get_artifact (local_storage fs base_dir) (sqlite fk now cutoff) blake3 hash st).0
        ≡ (ok_200, bytes kept)
  unfolding Handlers.get_artifact Storage.get
  get_artifact-found hash kept st there =
      rw (there, reliable.reads (get_sharded_path base_dir hash)) refl

  put_artifact-found :
      (body : Text) (st : AppState Files Db)
      → ltb body_limit (length body) ≡ false
      → let (response, st') =
          Handlers.put_artifact
            (local_storage fs base_dir)
            (sqlite fk now cutoff)
            blake3
            (blake3 body)
            body
            st in
        (response ≡ (created_201, no_body))
        × ((kept : Text) × (lookup (get_sharded_path base_dir (blake3 body)) st'.storage
              ≡ some kept))
  unfolding Handlers.put_artifact Storage.put
  put_artifact-found body st fits =
      let path = get_sharded_path base_dir (blake3 body) in
      elim (Option-cases (lookup path st.storage)) [
        | inl absent ↦
            rw
              (
                fits,
                text_eq_refl (blake3 body),
                absent,
                reliable.creates path,
                reliable.writes path,
              )
              (refl, (body, lookup-insert path path body st.storage ∙ rw (text_eq_refl path) refl))
        | inr (old, there) ↦ rw (fits, text_eq_refl (blake3 body), there) (refl, (old, there))
      ]

-- Where the file system answers every call, the base directory's path is not empty and does not end in
-- a separator, and hashes have at least four characters and no separator: after any requests to a new
-- server on the database, a PUT of a body of at most 2 MiB under its hash is answered 201, and a GET of the hash is then
-- answered 200 with a blob that has the hash.
pub put_artifact_served :
    (fs : FileSystem) (base_dir : Text) (blake3 : Text → Text) (fk : Bool) (now : Text)
    (cutoff : ℕ → Text)
    → IsReliable fs
    → is_directory base_dir ≡ true
    → ((body : Text) → is_plain (blake3 body) ≡ true)
    → (rs : List Request) (body : Text) → ltb body_limit (length body) ≡ false
    → let store = local_storage fs base_dir in
      let meta = sqlite fk now cutoff in
      let st = run_requests store meta blake3 rs (new_server new_db) in
      let (response, st') = Handlers.put_artifact store meta blake3 (blake3 body) body st in
      (response ≡ (created_201, no_body))
      × ((kept : Text) × ((Handlers.get_artifact store meta blake3 (blake3 body) st').0
            ≡ (ok_200, bytes kept))
          × (blake3 kept ≡ blake3 body))
unfolding lookup route
put_artifact_served fs base_dir blake3 fk now cutoff reliable dir named rs body fits =
    let store = local_storage fs base_dir in
    let meta = sqlite fk now cutoff in
    let st = run_requests store meta blake3 rs (new_server new_db) in
    let (response, st') = Handlers.put_artifact store meta blake3 (blake3 body) body st in
    let (created, (kept, there)) =
      put_artifact-found fs base_dir blake3 fk now cutoff reliable body st fits in
    let read =
      get_artifact-found fs base_dir blake3 fk now cutoff reliable (blake3 body) kept _ there in
    let content = local_storage-IsContentStore fs base_dir blake3 reliable.writes dir named in
    let intact =
      run_requests-Intact store meta blake3 (AllIntact fs base_dir blake3) content rs
        (new_server new_db) (empty-AllIntact fs base_dir blake3) in
    let intact' =
      route-Keeps store meta blake3 (AllIntact fs base_dir blake3) content
        (put_cache (blake3 body) body) st intact in
    (created, (kept, read, intact' (blake3 body) kept (named body) there))
