-- ===== src/Export/Images.antt =====
-- An exported image against a registry that checks digests.
use memo_build.Prelude.{
  ◌≡◌, refl, ap, ◌∙◌, Bool, true, false, Option, none, some, List, [], ◌∷◌, ◌++◌, arith, map,
  if◌then◌else◌, Text, text_eq, text_eq_refl, lookup, lookup-insert, Bool-cases, inl, inr,
}
use memo_build.Prelude.Results.{Result, Error, ok, err, Action, and_then, ◌>>=◌, ◌>>◌, pure}
use memo_build.Graph.{Node, BuildGraph}
use memo_build.Export.{
  Formats, Layout, LayerInfo, OciManifest, OciDescriptor, layer_descriptor, hex_of, digest_of,
  write_blob, layer_bytes, layer_begun, manifest_of, index_of, create_config, create_layer_tar,
  create_layers, write_manifest, export_image, empty_layout,
}
use memo_build.Export.Registry.{
  Http, RegistryClient, blob_url, final_url, ensure, location_or_fail, send_file, send_blob,
  uploads_url, upload_manifest, upload_blob, upload_layers, push,
}

module _ (fmt : Formats) (now : Text) (graph : BuildGraph) (reproducible : Bool) where
  -- The image of a graph in an empty directory.
  abbrev pub image : Layout
  image = export_image fmt now graph reproducible empty_layout

  abbrev image_layers : List LayerInfo
  image_layers = (create_layers fmt graph.nodes [] empty_layout).0

  abbrev pub image_config : Text
  image_config = fmt.config_json (create_config fmt now graph image_layers reproducible)

  abbrev pub image_manifest : OciManifest
  image_manifest = manifest_of fmt image_config image_layers

-- The JSON library reads a manifest as it was written, and the digest in the index of a manifest.
pub record Readable (fmt : Formats) (manifest : OciManifest) : Type 0 where
  pub parse_lem : fmt.parse_manifest (fmt.manifest_json manifest) ≡ some manifest
  pub index_lem :
      fmt.index_digest (fmt.index_json (index_of fmt (fmt.manifest_json manifest)))
      ≡ some (digest_of fmt (fmt.manifest_json manifest))

-- The answer is an error, or that it is no success.
abbrev pub IsRefused : Result Bool → Type 0
IsRefused (ok true) = ⊥
IsRefused (ok false) = Unit
IsRefused (err e) = Unit

abbrev Fails : {A : Type 0} → Result A → Type 0
Fails (ok a) = ⊥
Fails (err e) = Unit

Fails-error : {A : Type 0} (r : Result A) → Fails r → (e : Error) × (r ≡ err e)
Fails-error (ok a) f = absurd f
Fails-error (err e) f = (e, refl)

module _ {S A B : Type 0} (f : A → Action S B) where
  -- A chain fails if its first step does.
  first-Fails : (x : Result A) (s : S) → Fails x → Fails (and_then x f s).0
  first-Fails (ok a) s fails = absurd fails
  first-Fails (err e) s fails = tt

refused-Fails :
    {S B : Type 0} (f : Bool → Action S B) (x : Result Bool) (s : S)
    → IsRefused x
    → Fails (f false s).0
    → Fails (and_then x f s).0
refused-Fails f (ok true) s refused fails = absurd refused
refused-Fails f (ok false) s refused fails = fails
refused-Fails f (err e) s refused fails = tt

-- Of two texts that are not the same the digests differ.
abbrev pub IsApart : Formats → Text → Text → Type 0
IsApart fmt digest bytes = text_eq digest (digest_of fmt bytes) ≡ false

abbrev pub AllApart : Formats → Text → List Node → Type 0
AllApart fmt digest [] = Unit
AllApart fmt digest (node ∷ nodes) =
    IsApart fmt digest (layer_bytes fmt node) × AllApart fmt digest nodes

module _ (fmt : Formats) (d : Text) where
  -- The file that the digest names has another digest.
  record IsForeign (out : Layout) : Type 0 where
    bytes : Text
    file : lookup (hex_of d) out.blobs ≡ some bytes
    apart : IsApart fmt d bytes

  write_blob-IsForeign :
      (name bytes : Text) (out : Layout)
      → IsApart fmt d bytes
      → IsForeign out
      → IsForeign (write_blob name bytes out)
  write_blob-IsForeign name bytes out apart foreign =
      let put = lookup-insert name (hex_of d) bytes out.blobs in
      elim (Bool-cases (text_eq name (hex_of d))) [
        | inl same ↦ record { bytes = bytes; file = put ∙ ground (arith, same); apart = apart }
        | inr other ↦ record {
          bytes = foreign.bytes;
          file = put ∙ ground (arith, other, foreign.file);
          apart = foreign.apart;
        }
      ]

  create_layers-IsForeign :
      (nodes : List Node) (layers : List LayerInfo) (out : Layout)
      → AllApart fmt d nodes
      → IsForeign out
      → IsForeign (create_layers fmt nodes layers out).1
  unfolding create_layers create_layer_tar
  create_layers-IsForeign [] layers out apart foreign = foreign
  create_layers-IsForeign (node ∷ nodes) layers out (apart, all) foreign =
      let (layer, out') = create_layer_tar fmt node out in
      create_layers-IsForeign nodes (layers ++ layer ∷ []) out' all
        (write_blob-IsForeign (hex_of layer.digest) (layer_bytes fmt node) out apart foreign)

written :
    (name bytes : Text) (out : Layout) → lookup name (write_blob name bytes out).blobs ≡ some bytes
written name bytes out = lookup-insert name name bytes out.blobs ∙ ground (arith, text_eq_refl name)

create_layers-first :
    (fmt : Formats) (nodes : List Node) (layer : LayerInfo) (layers : List LayerInfo) (out : Layout)
    → (rest : List LayerInfo) × ((create_layers fmt nodes (layer ∷ layers) out).0 ≡ layer ∷ rest)
unfolding create_layers
create_layers-first fmt [] layer layers out = (layers, refl)
create_layers-first fmt (node ∷ nodes) layer layers out =
    let (next, out') = create_layer_tar fmt node out in
    create_layers-first fmt nodes layer (layers ++ next ∷ []) out'

module _ {R : Type 0} (http : Http R) (fmt : Formats) (host_of : Text → Text)
    (client : RegistryClient) where
  -- The protocol: an upload to a location that was given for it does not succeed if its bytes do not have
  -- the digest that it is made with.
  abbrev pub ChecksDigests : Type 0
  ChecksDigests =
      (location d bytes : Text) (r : R)
      → (http.post client.token (uploads_url client) r).0 ≡ ok (true, some location)
      → IsApart fmt d bytes
      → IsRefused
          (http.put client.token (final_url http fmt host_of client location d) bytes
            (http.post client.token (uploads_url client) r).1).0

  module _ (checks : ChecksDigests) where
    -- The steps of an upload behind the answer to its beginning.
    abbrev store : Text → Text → Text → Action R (Unit {0})
    store d bytes location =
        http.put client.token (final_url http fmt host_of client location d) bytes
        >>= ensure http fmt host_of client

    abbrev store_at : Text → Text → Option Text → Action R (Unit {0})
    store_at d bytes header = location_or_fail http fmt host_of client header >>= store d bytes

    abbrev store_if : Text → Text → Bool × Option Text → Action R (Unit {0})
    store_if d bytes (accepted, header) =
        ensure http fmt host_of client accepted >> store_at d bytes header

    abbrev IsUnstored : Text → Text → R → Text → Type 0
    IsUnstored d bytes r location =
        IsRefused (http.put client.token (final_url http fmt host_of client location d) bytes r).0

    store-Fails :
        (d bytes location : Text) (r : R)
        → IsUnstored d bytes r location
        → Fails (store d bytes location r).0
    store-Fails d bytes location r refused =
        let (answer, r') =
          http.put client.token (final_url http fmt host_of client location d) bytes r in
        refused-Fails (ensure http fmt host_of client) answer r' refused tt

    store_at-Fails :
        (d bytes : Text) (header : Option Text) (r : R)
        → ((location : Text) → header ≡ some location → IsUnstored d bytes r location)
        → Fails (store_at d bytes header r).0
    store_at-Fails d bytes none r refused = tt
    store_at-Fails d bytes (some location) r refused =
        store-Fails d bytes location r (refused location refl)

    store_if-Fails :
        (d bytes : Text) (answer : Result (Bool × Option Text)) (r : R)
        → ((location : Text) → answer ≡ ok (true, some location) → IsUnstored d bytes r location)
        → Fails (and_then answer (store_if d bytes) r).0
    store_if-Fails d bytes (err e) r refused = tt
    store_if-Fails d bytes (ok (false, header)) r refused = tt
    store_if-Fails d bytes (ok (true, header)) r refused =
        store_at-Fails d bytes header r
          (λ location e. refused location (ap (λ (o : Option Text). ok (true, o)) e))

    send_blob-Fails :
        (d bytes : Text) (r : R)
        → IsApart fmt d bytes
        → Fails (send_blob http fmt host_of client d bytes r).0
    unfolding send_blob
    send_blob-Fails d bytes r apart =
        let (answer, r') = http.post client.token (uploads_url client) r in
        store_if-Fails d bytes answer r' (λ location e. checks location d bytes r e apart)

    upload_blob-Fails :
        (out : Layout) (d : Text) (r : R)
        → IsForeign fmt d out
        → IsRefused (http.head client.token (blob_url client d) r).0
        → Fails (upload_blob http fmt host_of client out d r).0
    unfolding upload_blob
    upload_blob-Fails out d r foreign missing =
        let (answer, r') = http.head client.token (blob_url client d) r in
        rw (foreign.file) (
          refused-Fails
            (λ present.
              if present then pure tt else send_file http fmt host_of client d (some foreign.bytes))
            answer r' missing (send_blob-Fails d foreign.bytes r' foreign.apart))

    push-Fails :
        (out : Layout) (index content : Text) (manifest : OciManifest) (l : OciDescriptor)
        (ls : List OciDescriptor) (r : R)
        → out.index ≡ some index
        → fmt.index_digest index ≡ some (digest_of fmt content)
        → lookup (hex_of (digest_of fmt content)) out.blobs ≡ some content
        → fmt.parse_manifest content ≡ some manifest
        → manifest.layers ≡ l ∷ ls
        → Fails (upload_blob http fmt host_of client out l.digest r).0
        → Fails (push http fmt host_of client out r).0
    unfolding push upload_layers
    push-Fails out index content manifest l ls r indexed named file parsed layers fails =
        let (answer, r') = upload_blob http fmt host_of client out l.digest r in
        let uploaded =
          first-Fails (λ (u : Unit {0}). upload_layers http fmt host_of client out ls) answer r'
            fails in
        let (all, r'') =
          (upload_blob http fmt host_of client out l.digest
              >> upload_layers http fmt host_of client out ls)
            r in
        rw (indexed, named, file, parsed, layers)
          (first-Fails
            (λ (u : Unit {0}).
              upload_blob http fmt host_of client out manifest.config.digest
              >> upload_manifest http fmt host_of client content)
            all r'' uploaded)

    module _ (now : Text) (graph : BuildGraph) (reproducible : Bool) (node : Node)
        (nodes : List Node) (starts : graph.nodes ≡ node ∷ nodes)
        (readable : Readable fmt (image_manifest fmt now graph reproducible)) where
      -- The digest that the image's first layer is named by.
      abbrev pub first_digest : Text
      first_digest = digest_of fmt (layer_begun fmt node)

      image-IsForeign :
          IsApart fmt first_digest (layer_bytes fmt node)
          → AllApart fmt first_digest nodes
          → IsApart fmt first_digest (image_config fmt now graph reproducible)
          → IsApart fmt first_digest (fmt.manifest_json (image_manifest fmt now graph reproducible))
          → IsForeign fmt first_digest (image fmt now graph reproducible)
      unfolding export_image write_manifest create_layers create_layer_tar
      image-IsForeign own others config manifest =
          let content = fmt.manifest_json (image_manifest fmt now graph reproducible) in
          let made = image_config fmt now graph reproducible in
          let (layer, out) = create_layer_tar fmt node empty_layout in
          let all : IsForeign fmt first_digest (create_layers fmt graph.nodes [] empty_layout).1 =
            rw starts (
              create_layers-IsForeign fmt first_digest nodes (layer ∷ []) out others (record {
                bytes = layer_bytes fmt node;
                file = written (hex_of layer.digest) (layer_bytes fmt node) empty_layout;
                apart = own;
              })) in
          let with_config =
            write_blob-IsForeign fmt first_digest (fmt.sha256 made) made _ config all in
          let complete =
            write_blob-IsForeign fmt first_digest (fmt.sha256 content) content _ manifest
              with_config in
          record { bytes = complete.bytes; file = complete.file; apart = complete.apart }

      -- Let a registry refuse every upload whose bytes do not have the digest that it is made with, and
      -- let the JSON of the image be read as it was written. Let the first layer's digest, which was made
      -- before the layer's file was complete, be the digest of none of the image's files, and let the
      -- registry not have it. Then a push of the exported image of a graph that has a node ends in
      -- an error.
      pub push-export_image :
          (r : R)
          → IsApart fmt first_digest (layer_bytes fmt node)
          → AllApart fmt first_digest nodes
          → IsApart fmt first_digest (image_config fmt now graph reproducible)
          → IsApart fmt first_digest (fmt.manifest_json (image_manifest fmt now graph reproducible))
          → IsRefused (http.head client.token (blob_url client first_digest) r).0
          → (e : Error) × ((push http fmt host_of client (image fmt now graph reproducible) r).0
              ≡ err e)
      unfolding export_image write_manifest create_layers create_layer_tar
      push-export_image r own others config manifest missing =
          let written_manifest = image_manifest fmt now graph reproducible in
          let content = fmt.manifest_json written_manifest in
          let out = image fmt now graph reproducible in
          let (layer, out') = create_layer_tar fmt node empty_layout in
          let (rest, first) = create_layers-first fmt nodes layer [] out' in
          let config_text = image_config fmt now graph reproducible in
          let with_config =
            write_blob (fmt.sha256 config_text) config_text
              (create_layers fmt graph.nodes [] empty_layout).1 in
          let listed : (create_layers fmt graph.nodes [] empty_layout).0 ≡ layer ∷ rest =
            rw starts first in
          let failed =
            upload_blob-Fails out first_digest r (image-IsForeign own others config manifest)
              missing in
          Fails-error (push http fmt host_of client out r).0 (
            push-Fails out (fmt.index_json (index_of fmt content)) content written_manifest
              (layer_descriptor fmt layer) (map (layer_descriptor fmt) rest) r refl
              readable.index_lem (written (fmt.sha256 content) content with_config)
              readable.parse_lem (ap (map (layer_descriptor fmt)) listed) failed)
