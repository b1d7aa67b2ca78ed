-- ===== src/Export/Registry.antt =====
-- src/export/registry.rs, `RegistryClient`. The registry behind HTTP is a parameter with its state.
pub mod Transfer
use memo_build.Prelude.{
  ℕ, Bool, true, false, Option, none, some, List, [], ◌∷◌, ◌++◌, length, if◌then◌else◌, Text, codes,
  contains_str, lookup, insert, starts_with_code,
}
use memo_build.Prelude.Results.{
  Result, ok, err, io_error, remote_error, Action, and_then, ◌>>=◌, ◌>>◌, pure, throw,
}
use memo_build.Export.{
  Formats, Layout, OciManifest, OciDescriptor, hex_of, digest_of, write_blob, index_of,
  layout_version,
}

-- What the client's requests come to: whether the status is a success, and what is read of the answer.
-- The token, if any, goes with each.
pub record Http (R : Type 0) : Type 0 where
  pub head : Option Text → Text → Action R Bool
  pub post : Option Text → Text → Action R (Bool × Option Text)
  pub put : Option Text → Text → Text → Action R Bool
  pub get : Option Text → Text → Action R (Bool × Text)

pub record RegistryClient : Type 0 where
  pub base_url : Text
  pub repo : Text
  pub token : Option Text

unfoldable pub new_client : Text → Text → RegistryClient
new_client registry repo = record {
  base_url =
      if contains_str registry (codes "://")
      then registry ++ codes "/v2"
      else codes "https://" ++ registry ++ codes "/v2";
  repo = repo;
  token = none;
}

abbrev pub set_token : Text → RegistryClient → RegistryClient
set_token token client = record client { token = some token }

abbrev pub blob_url : RegistryClient → Text → Text
blob_url client digest = client.base_url ++ codes "/" ++ client.repo ++ codes "/blobs/" ++ digest

abbrev pub uploads_url : RegistryClient → Text
uploads_url client = client.base_url ++ codes "/" ++ client.repo ++ codes "/blobs/uploads/"

abbrev pub manifest_url : RegistryClient → Text → Text
manifest_url client tag = client.base_url ++ codes "/" ++ client.repo ++ codes "/manifests/" ++ tag

module _ {R : Type 0} (http : Http R) (fmt : Formats) (host_of : Text → Text)
    (client : RegistryClient) where
  -- `host_of` is what stands in front of the first `/v2`.
  abbrev pub final_url : Text → Text → Text
  final_url location digest =
      if starts_with_code location b'/'
      then host_of client.base_url ++ location ++ codes "&digest=" ++ digest
      else location ++ codes "&digest=" ++ digest

  -- A status that is no success is an error.
  abbrev pub ensure : Bool → Action R (Unit {0})
  ensure success = if success then pure tt else throw remote_error

  abbrev pub location_or_fail : Option Text → Action R Text
  location_or_fail none = throw remote_error
  location_or_fail (some location) = pure location

  unfoldable pub send_blob : Text → Text → Action R (Unit {0})
  send_blob digest bytes = do
    answer ← http.post client.token (uploads_url client)
    let (accepted, header) = answer
    ensure accepted
    location ← location_or_fail header
    stored ← http.put client.token (final_url location digest) bytes
    ensure stored

  -- The file is read after the upload was begun.
  abbrev pub send_file : Text → Option Text → Action R (Unit {0})
  send_file digest none = do
    answer ← http.post client.token (uploads_url client)
    let (accepted, header) = answer
    ensure accepted
    location_or_fail header
    throw io_error
  send_file digest (some bytes) = send_blob digest bytes

  unfoldable pub upload_blob : Layout → Text → Action R (Unit {0})
  unfolding send_blob lookup
  upload_blob out digest = do
    present ← http.head client.token (blob_url client digest)
    if present then pure tt else send_file digest (lookup (hex_of digest) out.blobs)

  unfoldable pub upload_layers : Layout → List OciDescriptor → Action R (Unit {0})
  unfolding upload_blob
  upload_layers out [] = pure tt
  upload_layers out (layer ∷ layers) = do upload_blob out layer.digest; upload_layers out layers

  unfoldable pub upload_manifest : Text → Action R (Unit {0})
  upload_manifest content = do
    stored ← http.put client.token (manifest_url client (codes "latest")) content
    ensure stored

  abbrev pub push_parsed : Layout → Text → Option OciManifest → Action R (Unit {0})
  push_parsed out content none = throw io_error
  push_parsed out content (some manifest) = do
    upload_layers out manifest.layers
    upload_blob out manifest.config.digest
    upload_manifest content

  abbrev pub push_read : Layout → Option Text → Action R (Unit {0})
  push_read out none = throw io_error
  push_read out (some content) = push_parsed out content (fmt.parse_manifest content)

  abbrev pub push_digest : Layout → Option Text → Action R (Unit {0})
  push_digest out none = throw io_error
  push_digest out (some digest) = push_read out (lookup (hex_of digest) out.blobs)

  abbrev pub push_index : Layout → Option Text → Action R (Unit {0})
  push_index out none = throw io_error
  push_index out (some index) = push_digest out (fmt.index_digest index)

  unfoldable pub push : Layout → Action R (Unit {0})
  unfolding upload_layers upload_manifest
  push out = push_index out out.index

  -- The body of an answer that is a success.
  abbrev pub body_of : Result (Bool × Text) → Result Text
  body_of (err e) = err e
  body_of (ok (false, body)) = err remote_error
  body_of (ok (true, body)) = ok body

  abbrev pub save : Text → Text → Action (Layout × R) (Unit {0})
  save name bytes (out, r) = (ok tt, (write_blob name bytes out, r))

  unfoldable pub download_blob : Text → Action (Layout × R) (Unit {0})
  unfolding insert
  download_blob digest (out, r) =
      let (answer, r') = http.get client.token (blob_url client digest) r in
      and_then (body_of answer) (λ bytes. save (hex_of digest) bytes) (out, r')

  unfoldable pub download_layers : List OciDescriptor → Action (Layout × R) (Unit {0})
  unfolding download_blob
  download_layers [] = pure tt
  download_layers (layer ∷ layers) = do download_blob layer.digest; download_layers layers

  abbrev finish : Text → Action (Layout × R) (Unit {0})
  finish content (out, r) = (
    ok tt,
    (
      record out {
        index = some (fmt.index_json (index_of fmt content));
        oci_layout = some (layout_version fmt);
      },
      r,
    ),
  )

  -- The manifest's file is written in front of the blobs, and the index behind them.
  abbrev pub pull_parsed : Text → Option OciManifest → Action (Layout × R) (Unit {0})
  pull_parsed content none = throw io_error
  pull_parsed content (some manifest) = do
    save (hex_of (digest_of fmt content)) content
    download_blob manifest.config.digest
    download_layers manifest.layers
    finish content

  unfoldable pub pull : Text → Action (Layout × R) (Unit {0})
  unfolding download_layers
  pull tag (out, r) =
      let (answer, r') = http.get client.token (manifest_url client tag) r in
      and_then (body_of answer) (λ content. pull_parsed content (fmt.parse_manifest content))
        (out, r')
