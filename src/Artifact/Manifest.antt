-- ===== src/Artifact/Manifest.antt =====
-- crates/shm-artifact/src/manifest.rs: the image of a version's manifest, and the walk down a
-- chain of manifests. A byte is a number below 256. The records of an image lie one behind the
-- other, without gaps, in the little-endian layout of their fields.
pub mod Image
pub mod RoundTrip
pub mod Walk
use shm_actors.Prelude.{
  ℕ, zero, suc, ◌+◌, ◌-◌, ◌*◌, ◌/◌, ◌%◌, ◌^◌, Bool, true, false, not, Option, none, some, List, [],
  ◌∷◌, ◌++◌, ok, err, ◌>>=◌, ◌==◌, ◌&&◌, ◌||◌, leb, ltb, if◌then◌else◌, length, take, drop, get_or,
}
use shm_actors.Core.Desc.{ChunkDesc}
use shm_actors.Runtime.Wire.{Bytes, le32, from_le32, desc_bytes}
use shm_actors.Artifact.Error.{
  Error, ArtifactResult, too_many_chunks, too_many_batches, too_many_kept, not_older, linked_window,
  too_deep, malformed_window, arrow, unsupported, bad_magic, version_gone, stale_manifest,
}

-- b"SHMMFST5", little-endian
abbrev pub manifest_magic : ℕ
manifest_magic = 0x355453464d4d4853

pub record VersionManifest : Type 0 where
  pub magic : ℕ
  pub version : ℕ
  pub artifact_id : ℕ
  pub schema_id : ℕ
  pub chunk_count : ℕ
  pub batch_count : ℕ
  pub prev_version : ℕ
  pub prev_ref : ℕ
  pub prev_gen : ℕ
  pub depth : ℕ
  pub total_batches : ℕ
  pub kept_count : ℕ

pub record KeptMember : Type 0 where
  pub version : ℕ
  pub batches : ℕ
  pub pad : ℕ

-- size_of::<VersionManifest>() is 64, of ChunkDesc 24, and of KeptMember 16.
abbrev pub chunks_offset : ℕ
chunks_offset = 64

abbrev pub spans_offset : ℕ → ℕ
spans_offset chunk_count = chunks_offset + chunk_count * 24

abbrev pub kept_offset : ℕ → ℕ → ℕ
kept_offset chunk_count batch_count = spans_offset chunk_count + batch_count * 4

abbrev pub manifest_len : ℕ → ℕ → ℕ → ℕ
manifest_len chunk_count batch_count kept_count =
    kept_offset chunk_count batch_count + kept_count * 16

pub record ManifestLink : Type 0 where
  pub version : ℕ
  pub mref : ℕ
  pub generation : ℕ
  pub depth : ℕ
  pub total_batches : ℕ

pub record Manifest : Type 0 where
  pub artifact_id : ℕ
  pub version : ℕ
  pub schema_id : ℕ
  pub chunks : List ChunkDesc
  pub batch_spans : List ℕ
  pub prev : Option ManifestLink
  pub depth : ℕ
  pub total_batches : ℕ
  pub window_base : ℕ
  pub kept : List KeptMember

abbrev pub link_from : Manifest → ℕ → ℕ → ManifestLink
link_from m mref generation = record {
  version = m.version;
  mref = mref;
  generation = generation;
  depth = m.depth;
  total_batches = m.total_batches;
}

abbrev pub is_none : Option ManifestLink → Bool
is_none none = true
is_none (some link) = false

abbrev pub is_empty : List KeptMember → Bool
is_empty [] = true
is_empty (k ∷ ks) = false

abbrev pub is_window_root : Manifest → Bool
is_window_root m = is_none m.prev && (not (m.window_base == 0) || not (is_empty m.kept))

-- The batches of the members that are not newer than `since`.
abbrev pub batches_until : ℕ → List KeptMember → ℕ
batches_until since [] = 0
batches_until since (k ∷ ks) =
    let rest = batches_until since ks in if leb k.version since then k.batches + rest else rest

unfoldable pub kept_batches_before : Manifest → ℕ → Option ℕ
kept_batches_before m since =
    if not (is_window_root m) || ltb since m.window_base
    then none
    else some (batches_until since m.kept)

-- The loop of `window_ok`, with the version before and the batches so far, and the test behind it.
abbrev pub window_members : (version batch_count : ℕ) → Option ℕ → ℕ → List KeptMember → Bool
window_members version batch_count prev total [] = not (ltb batch_count total)
window_members version batch_count prev total (k ∷ ks) =
    let rest = window_members version batch_count (some k.version) (total + k.batches) ks in
    if k.batches == 0 || (not (k.pad == 0) || leb version k.version)
    then false
    else if elim prev [ none ↦ false | some p ↦ leb k.version p ]
    then false
    else rest

abbrev pub first_within : ℕ → List KeptMember → Bool
first_within window_base [] = true
first_within window_base (k ∷ ks) = leb window_base k.version

unfoldable pub window_ok : ℕ → ℕ → List KeptMember → ℕ → Bool
window_ok version window_base kept batch_count =
    if leb version window_base
    then false
    else window_members version batch_count none 0 kept && first_within window_base kept

-- `to_le_bytes` and `from_le_bytes` of a u64
abbrev pub le64 : ℕ → Bytes
le64 v = le32 (v % 2 ^ 32) ++ le32 (v / 2 ^ 32)

abbrev pub u32_at : Bytes → ℕ → ℕ
u32_at b off = from_le32 (take 4 (drop off b))

abbrev pub u64_at : Bytes → ℕ → ℕ
u64_at b off = u32_at b off + 2 ^ 32 * u32_at b (off + 4)

abbrev pub header_bytes : VersionManifest → Bytes
header_bytes h =
    le64 h.magic
    ++ (le64 h.version
        ++ (le32 h.artifact_id
            ++ (le32 h.schema_id
                ++ (le32 h.chunk_count
                    ++ (le32 h.batch_count
                        ++ (le64 h.prev_version
                            ++ (le64 h.prev_ref
                                ++ (le32 h.prev_gen
                                    ++ (le32 h.depth
                                        ++ (le32 h.total_batches ++ le32 h.kept_count))))))))))

abbrev pub member_bytes : KeptMember → Bytes
member_bytes k = le64 k.version ++ (le32 k.batches ++ le32 0)

-- `read_pod`, of each of the record types
abbrev pub header_at : Bytes → VersionManifest
header_at b = record {
  magic = u64_at b 0;
  version = u64_at b 8;
  artifact_id = u32_at b 16;
  schema_id = u32_at b 20;
  chunk_count = u32_at b 24;
  batch_count = u32_at b 28;
  prev_version = u64_at b 32;
  prev_ref = u64_at b 40;
  prev_gen = u32_at b 48;
  depth = u32_at b 52;
  total_batches = u32_at b 56;
  kept_count = u32_at b 60;
}

abbrev pub chunk_at : Bytes → ℕ → ChunkDesc
chunk_at b off = record {
  segment_id = u32_at b off;
  generation = u32_at b (off + 4);
  offset = u32_at b (off + 8);
  len = u32_at b (off + 12);
  schema_id = u32_at b (off + 16);
  pad = u32_at b (off + 20);
}

abbrev pub member_at : Bytes → ℕ → KeptMember
member_at b off = record {
  version = u64_at b off;
  batches = u32_at b (off + 8);
  pad = u32_at b (off + 12);
}

-- The write and the read of a row of records of `size` bytes.
abbrev pub row_bytes {ℓ} : {A : Type ℓ} → (A → Bytes) → List A → Bytes
row_bytes enc [] = []
row_bytes enc (x ∷ xs) = enc x ++ row_bytes enc xs

abbrev pub row_at {ℓ} : {A : Type ℓ} → (Bytes → ℕ → A) → ℕ → Bytes → (off n : ℕ) → List A
row_at dec size b off zero = []
row_at dec size b off (suc n) = dec b off ∷ row_at dec size b (off + size) n

-- The link's part of a header.
pub record Linked : Type 0 where
  pub prev_version : ℕ
  pub prev_ref : ℕ
  pub prev_gen : ℕ
  pub depth : ℕ
  pub total_batches : ℕ

-- `u32::saturating_add`
abbrev pub saturating_add : ℕ → ℕ → ℕ
saturating_add a b = if ltb (2 ^ 32 - 1) (a + b) then 2 ^ 32 - 1 else a + b

abbrev pub window_of : Option (ℕ × List KeptMember) → ℕ × List KeptMember
window_of none = (0, [])
window_of (some w) = w

abbrev pub has_window : Option (ℕ × List KeptMember) → Bool
has_window none = false
has_window (some w) = true

unfoldable pub linked_of :
    (version batch_count : ℕ)
    → Option ManifestLink
    → Option (ℕ × List KeptMember)
    → ArtifactResult Linked
unfolding window_ok
linked_of version batch_count (some link) window =
    if leb version link.version || (link.version == 0 || link.mref == 0)
    then err (unsupported not_older)
    else if has_window window
    then err (unsupported linked_window)
    else if link.depth == 2 ^ 32 - 1
    then err (unsupported too_deep)
    else ok (record {
      prev_version = link.version;
      prev_ref = link.mref;
      prev_gen = link.generation;
      depth = link.depth + 1;
      total_batches = saturating_add batch_count link.total_batches;
    })
linked_of version batch_count none window =
    if not (window_ok version (window_of window).0 (window_of window).1 batch_count)
    then err (unsupported malformed_window)
    else ok (record {
      prev_version = (window_of window).0;
      prev_ref = 0;
      prev_gen = 0;
      depth = 0;
      total_batches = batch_count;
    })

-- The image.
abbrev pub image :
    (artifact_id version schema_id : ℕ) → List ChunkDesc → List ℕ → List KeptMember → Linked → Bytes
image artifact_id version schema_id chunks batch_spans kept l =
    header_bytes (record {
      magic = manifest_magic;
      version = version;
      artifact_id = artifact_id;
      schema_id = schema_id;
      chunk_count = length chunks;
      batch_count = length batch_spans;
      prev_version = l.prev_version;
      prev_ref = l.prev_ref;
      prev_gen = l.prev_gen;
      depth = l.depth;
      total_batches = l.total_batches;
      kept_count = length kept;
    })
    ++ (row_bytes desc_bytes chunks ++ (row_bytes le32 batch_spans ++ row_bytes member_bytes kept))

abbrev pub placed : ChunkDesc → ℕ → Bytes → ArtifactResult (ChunkDesc × Bytes)
placed desc total bytes = if ltb desc.len total then err arrow else ok (desc, bytes)

-- The descriptor of the chunk, and the bytes that are written at its start. Debug assertions are
-- off.
unfoldable pub write_manifest :
    (alloc : ℕ → ArtifactResult ChunkDesc)
    → (artifact_id version schema_id : ℕ) → List ChunkDesc
    → List ℕ
    → Option ManifestLink
    → Option (ℕ × List KeptMember)
    → ArtifactResult (ChunkDesc × Bytes)
unfolding linked_of
write_manifest alloc artifact_id version schema_id chunks batch_spans prev window =
    let kept = (window_of window).1 in
    let total = manifest_len (length chunks) (length batch_spans) (length kept) in
    if ltb (2 ^ 32 - 1) (length chunks)
    then err (unsupported too_many_chunks)
    else if ltb (2 ^ 32 - 1) (length batch_spans)
    then err (unsupported too_many_batches)
    else if ltb (2 ^ 32 - 1) (length kept)
    then err (unsupported too_many_kept)
    else linked_of version (length batch_spans) prev window >>= λ l. alloc total >>= λ desc.
        placed desc total (image artifact_id version schema_id chunks batch_spans kept l)

-- The header names a root: it links no manifest.
abbrev pub is_root : VersionManifest → Bool
is_root h = h.prev_ref == 0

-- The header's own fields contradict each other.
abbrev pub is_malformed : VersionManifest → Bool
is_malformed h =
    not (if is_root h then h.depth == 0 else not (h.depth == 0))
    || ((is_root h && not (h.prev_gen == 0))
        || ((not (is_root h) && (h.prev_version == 0 || not (h.kept_count == 0)))
            || (leb h.version h.prev_version || ltb h.total_batches h.batch_count)))

-- The manifest of a header and its rows.
abbrev pub manifest_of : VersionManifest → List ChunkDesc → List ℕ → List KeptMember → Manifest
manifest_of h chunks batch_spans kept = record {
  artifact_id = h.artifact_id;
  version = h.version;
  schema_id = h.schema_id;
  chunks = chunks;
  batch_spans = batch_spans;
  prev =
      if is_root h
      then none
      else some (record {
        version = h.prev_version;
        mref = h.prev_ref;
        generation = h.prev_gen;
        depth = h.depth - 1;
        total_batches = h.total_batches - h.batch_count;
      });
  depth = h.depth;
  total_batches = h.total_batches;
  window_base = if is_root h then h.prev_version else 0;
  kept = kept;
}

abbrev pub rows_of : VersionManifest → Bytes → ArtifactResult Manifest
rows_of h b =
    let spans_off = spans_offset h.chunk_count in
    let kept_off = kept_offset h.chunk_count h.batch_count in
    let kept = row_at member_at 16 b kept_off h.kept_count in
    if is_root h && not (window_ok h.version h.prev_version kept h.batch_count)
    then err version_gone
    else ok (
        manifest_of h (row_at chunk_at 24 b chunks_offset h.chunk_count)
          (row_at u32_at 4 b spans_off h.batch_count) kept)

-- The checked sums of u32 counts do not overflow a 64-bit usize.
unfoldable pub parse_manifest_bytes : Bytes → ArtifactResult Manifest
unfolding window_ok
parse_manifest_bytes b =
    let h = header_at b in
    if ltb (length b) 64
    then err version_gone
    else if not (h.magic == manifest_magic)
    then err bad_magic
    else if is_malformed h
    then err version_gone
    else if ltb (length b) (manifest_len h.chunk_count h.batch_count h.kept_count)
    then err version_gone
    else rows_of h b

-- `read_manifest` is an argument.
unfoldable pub read_manifest_checked :
    (read_manifest : ℕ → ArtifactResult Manifest)
    → (mref expect_artifact_id expect_version : ℕ) → ArtifactResult Manifest
read_manifest_checked read_manifest mref expect_artifact_id expect_version =
    read_manifest mref >>= λ m.
    if not (m.artifact_id == expect_artifact_id) || not (m.version == expect_version)
    then err stale_manifest
    else ok m

-- The tests of a manifest before its link is followed, in the chain of `head`.
abbrev pub is_foreign : Manifest → Manifest → Bool
is_foreign head cur =
    ltb (2 ^ 32 - 1) (length cur.batch_spans)
    || (ltb cur.total_batches (length cur.batch_spans)
        || (not (cur.artifact_id == head.artifact_id) || not (cur.schema_id == head.schema_id)))

abbrev pub is_bad_link : Manifest → ManifestLink → Bool
is_bad_link cur link =
    leb cur.version link.version
    || (not (link.depth == cur.depth - 1)
        || not (link.total_batches == cur.total_batches - length cur.batch_spans))

abbrev pub is_other : ManifestLink → Manifest → Bool
is_other link prev =
    not (prev.version == link.version)
    || (not (prev.depth == link.depth) || not (prev.total_batches == link.total_batches))

-- The rest of the walk, from the manifest that a link leads to.
abbrev pub follow :
    Manifest
    → ManifestLink
    → ArtifactResult Manifest
    → (Manifest → ArtifactResult (List Manifest))
    → ArtifactResult (List Manifest)
follow cur link (err e) more = err e
follow cur link (ok prev) more =
    let rest = more prev >>= λ chain. ok (cur ∷ chain) in
    if is_other link prev then err version_gone else rest

abbrev pub end_of_chain : (left : ℕ) → Manifest → ArtifactResult (List Manifest)
end_of_chain left cur =
    if not (cur.depth == 0)
      || (not (left == 0) || not (cur.total_batches == length cur.batch_spans))
    then err version_gone
    else ok (cur ∷ [])

-- The loop, when `left` more links may be followed: the depth of the head, less the hops so far.
unfoldable pub walk_from :
    Manifest
    → (read_prev : ManifestLink → ArtifactResult Manifest) → (stop : Manifest → Bool) → (left : ℕ)
    → Manifest
    → ArtifactResult (List Manifest)
walk_from head read_prev stop zero cur =
    if is_foreign head cur
    then err version_gone
    else elim cur.prev [ none ↦ end_of_chain 0 cur | some link ↦ err version_gone ]
walk_from head read_prev stop (suc left) cur =
    let more = walk_from head read_prev stop left in
    if is_foreign head cur then err version_gone else elim cur.prev [
      | none ↦ end_of_chain (suc left) cur
      | some link ↦
          if cur.depth == 0 || is_bad_link cur link
          then err version_gone
          else if stop cur
          then ok (cur ∷ [])
          else follow cur link (read_prev link) more
    ]

unfoldable pub walk_chain_newest_first :
    Manifest
    → (read_prev : ManifestLink → ArtifactResult Manifest) → (stop : Manifest → Bool)
    → ArtifactResult (List Manifest)
unfolding walk_from
walk_chain_newest_first head read_prev stop = walk_from head read_prev stop head.depth head

abbrev pub reversed : List Manifest → List Manifest
reversed [] = []
reversed (m ∷ ms) = reversed ms ++ (m ∷ [])

unfoldable pub walk_chain_with :
    Manifest → (read_prev : ManifestLink → ArtifactResult Manifest) → ArtifactResult (List Manifest)
unfolding walk_chain_newest_first
walk_chain_with head read_prev =
    walk_chain_newest_first head read_prev (λ m. false) >>= λ chain. ok (reversed chain)
