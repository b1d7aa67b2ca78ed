-- ===== src/Cache/Chunks.antt =====
-- src/cache/utils.rs: an artifact as chunks that are named by their hash.
use memo_build.Prelude.{
  ℕ, zero, suc, ◌-◌, ◌*◌, ◌≤◌, ◌<◌, ◌≡◌, refl, ap, ◌∙◌, List, [], ◌∷◌, ◌++◌, map, arith, length,
  take, drop, Text, min,
}

abbrev pub chunk_size : ℕ
chunk_size = 1024 * 1024

pub record ArtifactLayer : Type 0 where
  pub hash : Text
  pub content : Text

-- `data.chunks(size)`. Each round takes a chunk off, so the length of the data is fuel enough.
unfoldable pub chunks : ℕ → ℕ → Text → List Text
chunks zero size bytes = []
chunks (suc fuel) size [] = []
chunks (suc fuel) size (b ∷ bytes) =
    take size (b ∷ bytes) ∷ chunks fuel size (drop size (b ∷ bytes))

abbrev pub make_layer : (Text → Text) → Text → ArtifactLayer
make_layer blake3_hex chunk = record { hash = blake3_hex chunk; content = chunk }

unfoldable pub split_artifact : (Text → Text) → Text → List ArtifactLayer
split_artifact blake3_hex bytes =
    map (make_layer blake3_hex) (chunks (length bytes) chunk_size bytes)

unfoldable pub merge_artifact : List Text → Text
merge_artifact [] = []
merge_artifact (layer ∷ layers) = layer ++ merge_artifact layers

take-append-drop : (n : ℕ) (xs : Text) → take n xs ++ drop n xs ≡ xs
take-append-drop zero xs = refl
take-append-drop (suc n) [] = refl
take-append-drop (suc n) (x ∷ xs) = ap (λ l. x ∷ l) (take-append-drop n xs)

length-drop : (n : ℕ) (xs : Text) → length (drop n xs) ≡ length xs - n
length-drop zero xs = omega arith
length-drop (suc n) [] = omega arith
length-drop (suc n) (x ∷ xs) = omega (arith, length-drop n xs)

length-take : (n : ℕ) (xs : Text) → length (take n xs) ≡ min n (length xs)
length-take zero xs = omega arith
length-take (suc n) [] = omega arith
length-take (suc n) (x ∷ xs) = omega (arith, length-take n xs)

merge-chunks :
    (fuel size : ℕ) (bytes : Text)
    → 0 < size
    → length bytes ≤ fuel
    → merge_artifact (chunks fuel size bytes) ≡ bytes
unfolding merge_artifact chunks
merge-chunks zero size [] pos enough = refl
merge-chunks zero size (b ∷ bytes) pos enough = absurd (omega arith)
merge-chunks (suc fuel) size [] pos enough = refl
merge-chunks (suc fuel) size (b ∷ bytes) pos enough =
    let rest =
      merge-chunks fuel size (drop size (b ∷ bytes)) pos
        (omega (arith, length-drop size (b ∷ bytes))) in
    ap (λ l. take size (b ∷ bytes) ++ l) rest ∙ take-append-drop size (b ∷ bytes)

map-content :
    (blake3_hex : Text → Text) (cs : List Text)
    → map (λ (l : ArtifactLayer). l.content) (map (make_layer blake3_hex) cs) ≡ cs
map-content blake3_hex [] = refl
map-content blake3_hex (c ∷ cs) = ap (λ l. c ∷ l) (map-content blake3_hex cs)

-- The layers that an artifact is split into, merged in order, are the artifact.
pub merge-split_artifact :
    (blake3_hex : Text → Text) (bytes : Text)
    → merge_artifact (map (λ (l : ArtifactLayer). l.content) (split_artifact blake3_hex bytes))
      ≡ bytes
unfolding split_artifact
merge-split_artifact blake3_hex bytes =
    ap merge_artifact (map-content blake3_hex (chunks (length bytes) chunk_size bytes))
    ∙ merge-chunks (length bytes) chunk_size bytes (omega arith) (omega arith)

-- Each layer is content-addressed, not empty, and at most `chunk_size` bytes long.
abbrev pub AreLayers : (Text → Text) → ℕ → List ArtifactLayer → Type 0
AreLayers blake3_hex size [] = Unit
AreLayers blake3_hex size (l ∷ ls) =
    (l.hash ≡ blake3_hex l.content)
    × (0 < length l.content)
    × (length l.content ≤ size)
    × AreLayers blake3_hex size ls

chunks-AreLayers :
    (blake3_hex : Text → Text) (fuel size : ℕ) (bytes : Text)
    → 0 < size
    → AreLayers blake3_hex size (map (make_layer blake3_hex) (chunks fuel size bytes))
unfolding chunks
chunks-AreLayers blake3_hex zero size bytes pos = tt
chunks-AreLayers blake3_hex (suc fuel) size [] pos = tt
chunks-AreLayers blake3_hex (suc fuel) size (b ∷ bytes) pos = (
  refl,
  omega (arith, length-take size (b ∷ bytes)),
  omega (arith, length-take size (b ∷ bytes)),
  chunks-AreLayers blake3_hex fuel size (drop size (b ∷ bytes)) pos,
)

-- Every layer of a split artifact is named by the hash of its content, holds something, and fits a
-- chunk.
pub split_artifact-AreLayers :
    (blake3_hex : Text → Text) (bytes : Text)
    → AreLayers blake3_hex chunk_size (split_artifact blake3_hex bytes)
unfolding split_artifact
split_artifact-AreLayers blake3_hex bytes =
    chunks-AreLayers blake3_hex (length bytes) chunk_size bytes (omega arith)
