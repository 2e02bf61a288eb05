-- ===== src/Tests/ManifestTests.antt =====
-- Manifests and chains of them at concrete values.
use shm_actors.Prelude.{◌+◌, false, ℕ, ◌≤◌, ◌≡◌, refl, none, some, [], ◌∷◌, ◌++◌, ok, arith, length}
use shm_actors.Core.Desc.{ChunkDesc, zero_desc}
use shm_actors.Runtime.Wire.{Bytes}
use shm_actors.Artifact.Error.{ArtifactResult}
use shm_actors.Artifact.Manifest.{
  Manifest, ManifestLink, image, linked_of, write_manifest, parse_manifest_bytes, walk_from,
  walk_chain_newest_first,
}
use shm_actors.Artifact.Manifest.RoundTrip.{parse-write_manifest}
use shm_actors.Artifact.Manifest.Walk.{Chain, Ends, walk_chain_newest_first-Chain}

abbrev chunk : ChunkDesc
chunk = record zero_desc { offset = 128; len = 64 }

abbrev placed_at : ChunkDesc
placed_at = record zero_desc { offset = 256; len = 128 }

abbrev allocate : ℕ → ArtifactResult ChunkDesc
allocate total = ok placed_at

-- Version 1, a root with one batch, and version 2, which links it.
abbrev root : Manifest
root = record {
  artifact_id = 3;
  version = 1;
  schema_id = 8;
  chunks = chunk ∷ [];
  batch_spans = 1 ∷ [];
  prev = none;
  depth = 0;
  total_batches = 1;
  window_base = 0;
  kept = [];
}

abbrev link : ManifestLink
link = record { version = 1; mref = 77; generation = 0; depth = 0; total_batches = 1 }

abbrev second : Manifest
second = record root { version = 2; prev = some link; depth = 1; total_batches = 2 }

abbrev second_bytes : Bytes
second_bytes =
    image 3 2 8 (chunk ∷ []) (1 ∷ []) []
      (record { prev_version = 1; prev_ref = 77; prev_gen = 0; depth = 1; total_batches = 2 })

parse-write_manifest_example :
    (parse_manifest_bytes (second_bytes ++ (9 ∷ [])) ≡ ok second) × (length second_bytes ≤ 128)
unfolding write_manifest linked_of
parse-write_manifest_example =
    parse-write_manifest allocate 3 2 8 (chunk ∷ []) (1 ∷ []) (some link) none placed_at
      second_bytes (9 ∷ []) (omega arith) (omega arith) (omega arith)
      (
        record {
          segment_fits = omega arith;
          generation_fits = omega arith;
          offset_fits = omega arith;
          len_fits = omega arith;
          schema_fits = omega arith;
          pad_fits = omega arith;
        },
        tt,
      )
      (omega arith, tt) tt (omega arith, omega arith, omega arith, omega arith) refl

walk_chain_newest_first-Chain_example :
    (last : Manifest) × Chain (λ m. false) 3 8 second (second ∷ root ∷ []) last
    × Ends (λ m. false) last
    × (2 + last.depth ≡ second.depth + 1)
    × (2 + last.total_batches ≡ second.total_batches + length last.batch_spans)
unfolding walk_chain_newest_first walk_from
walk_chain_newest_first-Chain_example =
    walk_chain_newest_first-Chain second (λ l. ok root) (λ m. false) (second ∷ root ∷ []) refl
