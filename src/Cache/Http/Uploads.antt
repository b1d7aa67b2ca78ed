-- ===== src/Cache/Http/Uploads.antt =====
-- src/cache/http.rs against src/server/mod.rs: what the cache server does with an upload of the client.
use memo_build.Prelude.{◌≡◌, refl, false, Option, Text, text_eq, ltb, length, Bool-cases, inl, inr}
use memo_build.Prelude.Results.{ok, err, remote_error, Action}
use memo_build.Server.Storage.{ArtifactStorage}
use memo_build.Server.Handlers as Handlers
use memo_build.Server.Handlers.{MetadataStore, AppState, Response, body_limit}
use memo_build.Server.Handlers.Requests.{Request, route}
use memo_build.Cache.Http.{retry_from, retry_with_backoff, has, put, put_layer_data}

-- A connection that loses nothing to the server.
abbrev pub connect :
    {S M : Type 0}
    → ArtifactStorage S
    → MetadataStore M
    → (Text → Text)
    → Request
    → Action (AppState S M) Response
connect store meta blake3 r st =
    let (response, st') = route store meta blake3 r st in (ok response, st')

-- Whatever the storage and the metadata store: where the hash of the compressed bytes is not the hash that
-- they are uploaded under, the upload of a layer fails, and so does the upload of an artifact
-- that the metadata store says, without an error, it does not have; neither changes the storage
-- or the metadata.
pub uploads-refused :
    {S M : Type 0} (store : ArtifactStorage S) (meta : MetadataStore M) (blake3 gzip : Text → Text)
    (gunzip : Text → Option Text) (hash data_ : Text) (st : AppState S M)
    → meta.exists hash st.metadata ≡ (ok false, st.metadata)
    → text_eq (blake3 (gzip data_)) hash ≡ false
    → let send = connect store meta blake3 in
      (put send gzip gunzip hash data_ st ≡ (err remote_error, st))
      × (put_layer_data send gzip gunzip hash data_ st ≡ (err remote_error, st))
unfolding put has put_layer_data retry_with_backoff retry_from route Handlers.check_cache
    Handlers.put_artifact Handlers.put_layer
uploads-refused store meta blake3 gzip gunzip hash data_ st absent differs =
    elim (Bool-cases (ltb body_limit (length (gzip data_)))) [
      | inl too_large ↦ (rw (absent, too_large) refl, rw too_large refl)
      | inr fits ↦ (rw (absent, fits, differs) refl, rw (fits, differs) refl)
    ]
