-- ===== src/Export.antt =====
-- src/export: an OCI image of a graph, as files, and the client that pushes it to a registry and pulls it
-- back. An output directory is its `index.json`, its `oci-layout` and the files of `blobs/sha256` by
-- name; its writes do not fail. SHA-256, JSON, tar with gzip, the texts of numbers and of `{:?}`, and the
-- clock are parameters.
pub mod Registry
pub mod Images
use memo_build.Prelude.{
  ℕ, zero, suc, ◌≤◌, Bool, true, false, Option, none, some, List, [], ◌∷◌, ◌++◌, map, drop, length,
  if◌then◌else◌, Text, codes, insert,
}
use memo_build.Graph.{Node, BuildGraph}

pub record LayerInfo : Type 0 where
  pub digest : Text
  pub size : ℕ
  pub diff_id : Text

pub record OciDescriptor : Type 0 where
  pub media_type : Text
  pub digest : Text
  pub size : ℕ

pub record OciManifest : Type 0 where
  pub schema_version : ℕ
  pub media_type : Text
  pub config : OciDescriptor
  pub layers : List OciDescriptor

pub record OciIndex : Type 0 where
  pub schema_version : ℕ
  pub manifests : List OciDescriptor

pub record OciHistory : Type 0 where
  pub created : Text
  pub created_by : Text
  pub empty_layer : Option Bool

pub record OciConfig : Type 0 where
  pub architecture : Text
  pub os : Text
  pub env : List Text
  pub cmd : Option (List Text)
  pub working_dir : Option Text
  pub fs_type : Text
  pub diff_ids : List Text
  pub history : List OciHistory

pub record Layout : Type 0 where
  pub index : Option Text
  pub oci_layout : Option Text
  pub blobs : List (Text × Text)

-- An output directory with nothing in it.
abbrev pub empty_layout : Layout
empty_layout = record { index = none; oci_layout = none; blobs = [] }

-- The third-party code that the exporter calls.
pub record Formats : Type 0 where
  pub sha256 : Text → Text
  -- an archive of one file, compressed
  pub tar_gz : Text → Text → Text
  -- what of it has reached the disk when the archive is finished, and the encoder is not
  pub tar_gz_begun : Text → Text → Text
  pub show : ℕ → Text
  pub debug_env : List (Text × Text) → Text
  pub config_json : OciConfig → Text
  pub manifest_json : OciManifest → Text
  pub index_json : OciIndex → Text
  -- `serde_json::from_str::<OCIManifest>`
  pub parse_manifest : Text → Option OciManifest
  -- `["manifests"][0]["digest"].as_str()` of the parsed text, if it parses
  pub index_digest : Text → Option Text

-- `&digest[7..]`, of a digest that starts with `sha256:`
abbrev pub hex_of : Text → Text
hex_of digest = drop 7 digest

abbrev pub write_blob : Text → Text → Layout → Layout
write_blob name bytes out = record out { blobs = insert name bytes out.blobs }

abbrev pub manifest_type : Text
manifest_type = codes "application/vnd.oci.image.manifest.v1+json"

module _ (fmt : Formats) where
  abbrev pub digest_of : Text → Text
  digest_of bytes = codes "sha256:" ++ fmt.sha256 bytes

  -- The text in the one file of a layer.
  abbrev pub layer_text : Node → Text
  layer_text node =
      codes "Node: "
      ++ node.name
      ++ (10 ∷ codes "Hash: ")
      ++ node.hash
      ++ (10 ∷ codes "Env: ")
      ++ fmt.debug_env node.env

  abbrev pub layer_name : Node → Text
  layer_name node = codes "memobuild/node-" ++ fmt.show node.id ++ codes ".txt"

  abbrev pub layer_bytes : Node → Text
  layer_bytes node = fmt.tar_gz (layer_name node) (layer_text node)

  abbrev pub layer_begun : Node → Text
  layer_begun node = fmt.tar_gz_begun (layer_name node) (layer_text node)

  -- The file is read, hashed and renamed to its digest before the encoder, which is dropped at the end of
  -- the function, writes the rest to it.
  unfoldable pub create_layer_tar : Node → Layout → LayerInfo × Layout
  unfolding insert
  create_layer_tar node out =
      let begun = layer_begun node in
      let digest = digest_of begun in
      (
        record { digest = digest; size = length begun; diff_id = digest_of (layer_text node) },
        write_blob (hex_of digest) (layer_bytes node) out,
      )

  unfoldable pub env_lines : List (Text × Text) → List Text
  env_lines [] = []
  env_lines ((k, v) ∷ env) = (k ++ codes "=" ++ v) ∷ env_lines env

  unfoldable pub all_env : List Node → List Text
  unfolding env_lines
  all_env [] = []
  all_env (node ∷ nodes) = env_lines node.env ++ all_env nodes

  unfoldable pub create_config : Text → BuildGraph → List LayerInfo → Bool → OciConfig
  unfolding all_env
  create_config now graph layers reproducible =
      let timestamp = if reproducible then codes "1970-01-01T00:00:00Z" else now in
      record {
        architecture = codes "amd64";
        os = codes "linux";
        env = all_env graph.nodes;
        cmd = some (codes "/bin/sh" ∷ []);
        working_dir = some (codes "/");
        fs_type = codes "layers";
        diff_ids = map (λ (l : LayerInfo). l.diff_id) layers;
        history =
            map
              (λ (n : Node). record {
                created = timestamp;
                created_by = codes "MemoBuild: " ++ n.name;
                empty_layer = some false;
              })
              graph.nodes;
      }

  abbrev pub layer_descriptor : LayerInfo → OciDescriptor
  layer_descriptor l = record {
    media_type = codes "application/vnd.oci.image.layer.v1.tar+gzip";
    digest = l.digest;
    size = l.size;
  }

  abbrev pub manifest_of : Text → List LayerInfo → OciManifest
  manifest_of config layers = record {
    schema_version = 2;
    media_type = manifest_type;
    config = record {
      media_type = codes "application/vnd.oci.image.config.v1+json";
      digest = digest_of config;
      size = length config;
    };
    layers = map layer_descriptor layers;
  }

  abbrev pub index_of : Text → OciIndex
  index_of manifest = record {
    schema_version = 2;
    manifests =
        record { media_type = manifest_type; digest = digest_of manifest; size = length manifest }
        ∷ [];
  }

  abbrev pub layout_version : Text
  layout_version = codes "{\"imageLayoutVersion\": \"1.0.0\"}"

  unfoldable pub write_manifest : Text → BuildGraph → Bool → List LayerInfo → Layout → Layout
  unfolding create_config insert
  write_manifest now graph reproducible layers out =
      let config = fmt.config_json (create_config now graph layers reproducible) in
      let manifest = fmt.manifest_json (manifest_of config layers) in
      let with_config = write_blob (hex_of (digest_of config)) config out in
      let with_manifest = write_blob (hex_of (digest_of manifest)) manifest with_config in
      record with_manifest {
        index = some (fmt.index_json (index_of manifest));
        oci_layout = some layout_version;
      }

  -- The loop over the nodes, with the layers so far.
  unfoldable pub create_layers : List Node → List LayerInfo → Layout → List LayerInfo × Layout
  unfolding create_layer_tar
  create_layers [] layers out = (layers, out)
  create_layers (node ∷ nodes) layers out =
      let (layer, out') = create_layer_tar node out in
      create_layers nodes (layers ++ layer ∷ []) out'

  unfoldable pub export_image : Text → BuildGraph → Bool → Layout → Layout
  unfolding create_layers write_manifest
  export_image now graph reproducible out =
      let (layers, out') = create_layers graph.nodes [] out in
      write_manifest now graph reproducible layers out'
