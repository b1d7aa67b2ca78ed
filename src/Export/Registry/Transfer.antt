-- ===== src/Export/Registry/Transfer.antt =====
-- What is pushed to a registry is what is pulled from it.
use memo_build.Prelude.{
  ◌≡◌, ◌⊎◌, true, Option, none, some, List, [], ◌∷◌, if◌then◌else◌, Text, codes, text_eq, lookup,
  contains_str,
}
use memo_build.Prelude.Results.{Result, ok}
use memo_build.Cache.Remote.InMemory.{is_some}
use memo_build.Export.{Formats, Layout, OciManifest, OciDescriptor, hex_of, digest_of, index_of}
use memo_build.Export.Registry.{
  Http, RegistryClient, blob_url, uploads_url, manifest_url, final_url,
}

-- What the protocol of registries promises of the requests that this client makes, where the locations of
-- uploads have a query, as the client's `&digest=` supposes: the blobs by their digests and the manifest
-- `latest`; bytes are accepted under their own digest.
pub record Registry {R : Type 0} (http : Http R) (host_of : Text → Text) (fmt : Formats)
    (client : RegistryClient) : Type 0 where
  pub blobs : R → Text → Option Text
  pub latest : R → Option Text
  pub head_lem :
      (d : Text) (r : R)
      → http.head client.token (blob_url client d) r ≡ (ok (is_some (blobs r d)), r)
  pub location : R → Text
  pub location_lem : (r : R) → contains_str (location r) (codes "?") ≡ true
  pub begun : R → R
  pub post_lem :
      (r : R)
      → http.post client.token (uploads_url client) r ≡ (ok (true, some (location r)), begun r)
  pub put_lem :
      (d bytes : Text) (r : R)
      → d ≡ digest_of fmt bytes
      → (http.put client.token (final_url http fmt host_of client (location r) d) bytes (begun r)).0
        ≡ ok true
  pub put_blobs :
      (d bytes j : Text) (r : R)
      → d ≡ digest_of fmt bytes
      → blobs
          (http.put client.token
            (final_url http fmt host_of client (location r) d)
            bytes
            (begun r)).1
          j
        ≡ (if text_eq d j then some bytes else blobs r j)
  pub manifest_lem :
      (content : Text) (r : R)
      → (http.put client.token (manifest_url client (codes "latest")) content r).0 ≡ ok true
  pub manifest_latest :
      (content : Text) (r : R)
      → latest (http.put client.token (manifest_url client (codes "latest")) content r).1
        ≡ some content
  pub manifest_blobs :
      (content d : Text) (r : R)
      → blobs (http.put client.token (manifest_url client (codes "latest")) content r).1 d
        ≡ blobs r d
  pub get_manifest_lem :
      (content : Text) (r : R)
      → latest r ≡ some content
      → http.get client.token (manifest_url client (codes "latest")) r ≡ (ok (true, content), r)
  pub get_blob_lem :
      (d bytes : Text) (r : R)
      → blobs r d ≡ some bytes
      → http.get client.token (blob_url client d) r ≡ (ok (true, bytes), r)

module _ {R : Type 0} (http : Http R) (fmt : Formats) (host_of : Text → Text)
    (client : RegistryClient) (registry : Registry http host_of fmt client) where
  -- The registry has a blob's digest not at all, or with the bytes of the layout's file.
  abbrev pub Agrees : Layout → R → Type 0
  Agrees out r =
      (d bytes : Text)
      → lookup (hex_of d) out.blobs ≡ some bytes
      → (registry.blobs r d ≡ none) ⊎ (registry.blobs r d ≡ some bytes)

  record Sent (out : Layout) (d bytes : Text) (r : R) (step : Result (Unit {0}) × R) : Type 0 where
    done : step.0 ≡ ok tt
    agrees : Agrees out step.1
    stored : registry.blobs step.1 d ≡ some bytes
    kept : (j b : Text) → registry.blobs r j ≡ some b → registry.blobs step.1 j ≡ some b

  -- The layout has a file of each digest.
  abbrev pub AllFiled : Layout → List OciDescriptor → Type 0
  AllFiled out [] = Unit
  AllFiled out (l ∷ ls) =
      ((bytes : Text) × (lookup (hex_of l.digest) out.blobs ≡ some bytes)
        × (l.digest ≡ digest_of fmt bytes))
      × AllFiled out ls

  -- The registry has the layout's file under each digest.
  abbrev AllSent : Layout → List OciDescriptor → R → Type 0
  AllSent out [] r = Unit
  AllSent out (l ∷ ls) r =
      ((bytes : Text) × (lookup (hex_of l.digest) out.blobs ≡ some bytes)
        × (registry.blobs r l.digest ≡ some bytes)
        × (l.digest ≡ digest_of fmt bytes))
      × AllSent out ls r

  record SentAll (out : Layout) (ls : List OciDescriptor) (r : R) (step : Result (Unit {0}) × R)
      : Type 0 where
    done : step.0 ≡ ok tt
    agrees : Agrees out step.1
    all : AllSent out ls step.1
    kept : (j b : Text) → registry.blobs r j ≡ some b → registry.blobs step.1 j ≡ some b

  -- A layout whose index leads to a manifest that parses, and in which the manifest and all its blobs are
  -- files that are named by their digests.
  pub record IsImage (out : Layout) (index content : Text) (manifest : OciManifest) : Type 0 where
    pub indexed : out.index ≡ some index
    pub named : fmt.index_digest index ≡ some (digest_of fmt content)
    pub file : lookup (hex_of (digest_of fmt content)) out.blobs ≡ some content
    pub parsed : fmt.parse_manifest content ≡ some manifest
    pub layers : AllFiled out manifest.layers
    pub config : AllFiled out (manifest.config ∷ [])

  record Pushed (out : Layout) (content : Text) (manifest : OciManifest)
      (step : Result (Unit {0}) × R) : Type 0 where
    done : step.0 ≡ ok tt
    latest : registry.latest step.1 ≡ some content
    all : AllSent out (manifest.config ∷ manifest.layers) step.1

  -- Every file of the one layout is a file of the other.
  abbrev pub Within : Layout → Layout → Type 0
  Within p out = (n b : Text) → lookup n p.blobs ≡ some b → lookup n out.blobs ≡ some b

  -- What a download left: the registry as it was, and a layout with at least the files of `p`.
  record Fetched (out p : Layout) (names : List OciDescriptor) (r : R)
      (step : Result (Unit {0}) × (Layout × R)) : Type 0 where
    done : step.0 ≡ ok tt
    same : step.1.1 ≡ r
    within : Within step.1.0 out
    kept : Within p step.1.0
    all : AllFiled step.1.0 names

  AllFiled-mono :
      (p q : Layout) (ls : List OciDescriptor) → Within p q → AllFiled p ls → AllFiled q ls
  AllFiled-mono p q [] within all = tt
  AllFiled-mono p q (l ∷ ls) within ((bytes, file, named), all) =
      ((bytes, within (hex_of l.digest) bytes file, named), AllFiled-mono p q ls within all)

  -- What a pull wrote of the image `out`.
  pub record Pulled (out : Layout) (content : Text) (manifest : OciManifest)
      (step : Result (Unit {0}) × (Layout × R)) : Type 0 where
    pub done : step.0 ≡ ok tt
    pub index : step.1.0.index ≡ some (fmt.index_json (index_of fmt content))
    pub named : lookup (hex_of (digest_of fmt content)) step.1.0.blobs ≡ some content
    pub within : Within step.1.0 out
    pub filed : AllFiled step.1.0 (manifest.config ∷ manifest.layers)
