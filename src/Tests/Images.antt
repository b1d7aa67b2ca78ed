-- ===== src/Tests/Images.antt =====
-- An image with a layer in a registry in memory that checks digests, and the image of a graph of one node.
use memo_build.Prelude.{
  ◌≡◌, refl, Bool, true, false, Option, none, some, List, [], ◌∷◌, ◌++◌, drop, if◌then◌else◌, Text,
  codes, text_eq, text_eq_refl, lookup, insert, lookup-insert, length, contains_str,
}
use memo_build.Prelude.Results.{Error, ok, err}
use memo_build.Cache.Remote.InMemory.{is_some}
use memo_build.Graph.{Node, NodeKind, BuildGraph, default_metadata}
use memo_build.Export.{
  create_layers, create_layer_tar, create_config, Formats, Layout, OciManifest, OciDescriptor,
}
use memo_build.Export.Registry.{Http, RegistryClient, push, manifest_url}
use memo_build.Export.Registry.Transfer.{Registry}
use memo_build.Export.Images.{image, image_manifest, Readable, ChecksDigests, push-export_image}

abbrev client : RegistryClient
client = record { base_url = codes "h"; repo = codes "r"; token = none }

abbrev Store : Type 0
Store = List (Text × Text) × Option Text

abbrev host_of : Text → Text
host_of url = url

abbrev body_or_nothing : Option Text → Bool × Text
body_or_nothing none = (false, [])
body_or_nothing (some bytes) = (true, bytes)

abbrev latest_url : Text
latest_url = manifest_url client (codes "latest")

-- A blob is at `h/r/blobs/` and its digest; an upload goes to `u?s&digest=` and the digest.
abbrev http : Http Store
http = record {
  head = λ token url r. (ok (is_some (lookup (drop 10 url) r.0)), r);
  post = λ token url r. (ok (true, some (codes "u?s")), r);
  put = λ token url bytes r.
      if text_eq url latest_url
      then (ok true, (r.0, some bytes))
      else if text_eq (drop 11 url) (codes "sha256:" ++ bytes)
      then (ok true, (insert (drop 11 url) bytes r.0, r.1))
      else (ok false, r);
  get = λ token url r.
      if text_eq url latest_url
      then (ok (body_or_nothing r.1), r)
      else (ok (body_or_nothing (lookup (drop 10 url) r.0)), r);
}

abbrev described : Text → OciDescriptor
described bytes = record {
  media_type = codes "blob";
  digest = codes "sha256:" ++ bytes;
  size = length bytes;
}

abbrev manifest : OciManifest
manifest = record {
  schema_version = 2;
  media_type = codes "manifest";
  config = described (codes "config");
  layers = described (codes "layer") ∷ [];
}

abbrev blank : Formats
blank = record {
  sha256 = λ bytes. bytes;
  tar_gz = λ name content. codes "whole";
  tar_gz_begun = λ name content. codes "w";
  show = λ n. n ∷ [];
  debug_env = λ env. [];
  config_json = λ config. codes "config";
  manifest_json = λ m. codes "manifest";
  index_json = λ index. codes "index";
  parse_manifest = λ text. some manifest;
  index_digest = λ text. some (codes "sha256:manifest");
}

registry : Registry http host_of blank client
unfolding contains_str
registry = record {
  blobs = λ r d. lookup d r.0;
  latest = λ r. r.1;
  head_lem = λ d r. refl;
  location = λ r. codes "u?s";
  location_lem = λ r. refl;
  begun = λ r. r;
  post_lem = λ r. refl;
  put_lem = λ d bytes r named. rw (named, text_eq_refl (codes "sha256:" ++ bytes)) refl;
  put_blobs = λ d bytes j r named.
      rw (named, text_eq_refl (codes "sha256:" ++ bytes))
        (lookup-insert (codes "sha256:" ++ bytes) j bytes r.0);
  manifest_lem = λ content r. refl;
  manifest_latest = λ content r. refl;
  manifest_blobs = λ content d r. refl;
  get_manifest_lem = λ content r e. rw e refl;
  get_blob_lem = λ d bytes r e. rw e refl;
}

abbrev layout : Layout
layout = record {
  index = some (codes "index");
  oci_layout = some [];
  blobs =
      (codes "layer", codes "layer")
      ∷ (codes "config", codes "config")
      ∷ (codes "manifest", codes "manifest")
      ∷ [];
}

abbrev node : Node
node = record {
  id = 0;
  name = codes "n";
  content = codes "FROM a";
  kind = NodeKind.from_;
  hash = codes "h";
  dirty = false;
  deps = [];
  source_path = none;
  env = [];
  cache_hit = false;
  metadata = default_metadata;
}

abbrev graph : BuildGraph
graph = record { nodes = node ∷ [] }

abbrev fmt : Formats
fmt = record blank { parse_manifest = λ text. some (image_manifest blank [] graph true) }

fmt-Readable : Readable fmt (image_manifest fmt [] graph true)
unfolding create_layers create_layer_tar create_config
fmt-Readable = record { parse_lem = refl; index_lem = refl }

http-ChecksDigests : ChecksDigests http fmt host_of client
http-ChecksDigests location d bytes r given apart =
    let same : codes "u?s" ≡ location = cc given in rw (← same, apart) tt

push-export_image_example :
    (e : Error) × ((push http fmt host_of client (image fmt [] graph true) ([], none)).0 ≡ err e)
unfolding lookup
push-export_image_example =
    push-export_image http fmt host_of client http-ChecksDigests [] graph true node [] refl
      fmt-Readable ([], none) refl tt refl refl tt
