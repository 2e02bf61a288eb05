-- ===== src/Artifact/Manifest/Image.antt =====
-- The parsing of a manifest's image.
use shm_actors.Prelude.{
  ℕ, ◌+◌, ◌*◌, ◌/◌, ◌%◌, ◌^◌, ◌≤◌, ◌<◌, ◌≡◌, refl, sym, ap, ◌∙◌, false, not, List, [], ◌∷◌, ◌++◌,
  ok, err, ◌==◌, ◌&&◌, ltb, if◌then◌else◌, length, length-append, take, drop, drop-append, arith,
  ==_iff, le→ltb_false,
}
use mathlib.Core.List.{append_assoc}
use shm_actors.Core.Desc.{ChunkDesc}
use shm_actors.Runtime.Wire.{Bytes, le32, from_le32, desc_bytes}
use shm_actors.Runtime.Wire.Reads.{IsU32, from_le32-le32}
use shm_actors.Artifact.Error.{ArtifactResult, bad_magic, version_gone}
use shm_actors.Artifact.Manifest.{
  manifest_magic, VersionManifest, KeptMember, manifest_len, Manifest, le64, u32_at, u64_at,
  header_bytes, member_bytes, header_at, chunk_at, member_at, row_bytes, row_at, window_ok, is_root,
  is_malformed, manifest_of, rows_of, parse_manifest_bytes,
}

u32_at-le32 :
    (before rest : Bytes) (v off : ℕ)
    → off ≡ length before
    → v < 2 ^ 32
    → u32_at (before ++ (le32 v ++ rest)) off ≡ v
u32_at-le32 before rest v off e h =
    ap (λ b. from_le32 (take 4 b))
      (ap (λ n. drop n (before ++ (le32 v ++ rest))) e ∙ drop-append before (le32 v ++ rest))
    ∙ from_le32-le32 v h

from_le64-le64 :
    (v : ℕ)
    → v < 2 ^ 64
    → from_le32 (le32 (v % 2 ^ 32)) + 2 ^ 32 * from_le32 (le32 (v / 2 ^ 32)) ≡ v
from_le64-le64 v h =
    omega
      (arith, from_le32-le32 (v % 2 ^ 32) (omega arith), from_le32-le32 (v / 2 ^ 32) (omega arith))

u64_at-le64 :
    (before rest : Bytes) (v off : ℕ)
    → off ≡ length before
    → v < 2 ^ 64
    → u64_at (before ++ (le64 v ++ rest)) off ≡ v
u64_at-le64 before rest v off e h = omega (
  arith,
  u32_at-le32 before (le32 (v / 2 ^ 32) ++ rest) (v % 2 ^ 32) off e (omega arith),
  ap (λ b. u32_at b (off + 4))
      (sym (append_assoc before (le32 (v % 2 ^ 32)) (le32 (v / 2 ^ 32) ++ rest))),
  u32_at-le32 (before ++ le32 (v % 2 ^ 32)) rest (v / 2 ^ 32) (off + 4)
      (omega (arith, e, length-append before (le32 (v % 2 ^ 32)))) (omega arith),
)

abbrev pub AllFit {ℓ} : {A : Type ℓ} → (A → Type 0) → List A → Type 0
AllFit Fits [] = Unit {0}
AllFit Fits (x ∷ xs) = Fits x × AllFit Fits xs

-- A row of records that are read back one by one is read back.
module _ {ℓ} {A : Type ℓ} (enc : A → Bytes) (dec : Bytes → ℕ → A) (size : ℕ) (Fits : A → Type 0)
    (back : (before rest : Bytes) (x : A) (off : ℕ)
      → off ≡ length before
      → Fits x
      → dec (before ++ (enc x ++ rest)) off ≡ x)
    (sized : (x : A) → length (enc x) ≡ size) where
  pub row_at-row_bytes :
      (before rest : Bytes) (xs : List A) (off : ℕ)
      → off ≡ length before
      → AllFit Fits xs
      → row_at dec size (before ++ (row_bytes enc xs ++ rest)) off (length xs) ≡ xs
  row_at-row_bytes before rest [] off e f = refl
  row_at-row_bytes before rest (x ∷ xs) off e f =
      let inner : (enc x ++ row_bytes enc xs) ++ rest ≡ enc x ++ (row_bytes enc xs ++ rest) =
        append_assoc (enc x) (row_bytes enc xs) rest in
      λ i.
        (ap (λ b. dec (before ++ b) off) inner ∙ back before (row_bytes enc xs ++ rest) x off e f.0)
          i
        ∷ (ap (λ b. row_at dec size b (off + size) (length xs))
                (ap (λ b. before ++ b) inner
                  ∙ sym (append_assoc before (enc x) (row_bytes enc xs ++ rest)))
              ∙ row_at-row_bytes (before ++ enc x) rest xs (off + size)
                  (omega (arith, e, length-append before (enc x), sized x)) f.1)
            i

  pub length-row_bytes : (xs : List A) → length (row_bytes enc xs) ≡ length xs * size
  length-row_bytes [] = omega arith
  length-row_bytes (x ∷ xs) =
      omega (arith, length-append (enc x) (row_bytes enc xs), sized x, length-row_bytes xs)

pub record HeaderFits (h : VersionManifest) : Type 0 where
  pub version_fits : h.version < 2 ^ 64
  pub artifact_fits : h.artifact_id < 2 ^ 32
  pub schema_fits : h.schema_id < 2 ^ 32
  pub chunks_fit : h.chunk_count < 2 ^ 32
  pub batches_fit : h.batch_count < 2 ^ 32
  pub prev_version_fits : h.prev_version < 2 ^ 64
  pub prev_ref_fits : h.prev_ref < 2 ^ 64
  pub prev_gen_fits : h.prev_gen < 2 ^ 32
  pub depth_fits : h.depth < 2 ^ 32
  pub total_fits : h.total_batches < 2 ^ 32
  pub kept_fits : h.kept_count < 2 ^ 32

header_at-header_bytes :
    (h : VersionManifest) (rest : Bytes)
    → h.magic ≡ manifest_magic
    → HeaderFits h
    → header_at (header_bytes h ++ rest) ≡ h
header_at-header_bytes h rest m f = λ i. record {
  magic = from_le64-le64 h.magic (omega (arith, m)) i;
  version = from_le64-le64 h.version f.version_fits i;
  artifact_id = from_le32-le32 h.artifact_id f.artifact_fits i;
  schema_id = from_le32-le32 h.schema_id f.schema_fits i;
  chunk_count = from_le32-le32 h.chunk_count f.chunks_fit i;
  batch_count = from_le32-le32 h.batch_count f.batches_fit i;
  prev_version = from_le64-le64 h.prev_version f.prev_version_fits i;
  prev_ref = from_le64-le64 h.prev_ref f.prev_ref_fits i;
  prev_gen = from_le32-le32 h.prev_gen f.prev_gen_fits i;
  depth = from_le32-le32 h.depth f.depth_fits i;
  total_batches = from_le32-le32 h.total_batches f.total_fits i;
  kept_count = from_le32-le32 h.kept_count f.kept_fits i;
}

-- A field behind others.
u32_behind :
    (before pre rest : Bytes) (v off k : ℕ)
    → off ≡ length before
    → k ≡ length pre
    → v < 2 ^ 32
    → u32_at (before ++ (pre ++ (le32 v ++ rest))) (off + k) ≡ v
u32_behind before pre rest v off k e l h =
    ap (λ b. u32_at b (off + k)) (sym (append_assoc before pre (le32 v ++ rest)))
    ∙ u32_at-le32 (before ++ pre) rest v (off + k) (omega (arith, e, l, length-append before pre)) h

chunk_at-desc_bytes :
    (before rest : Bytes) (d : ChunkDesc) (off : ℕ)
    → off ≡ length before
    → IsU32 d
    → chunk_at (before ++ (desc_bytes d ++ rest)) off ≡ d
chunk_at-desc_bytes before rest d off e f = λ i.
    let b1 = le32 d.segment_id in
    let b2 = b1 ++ le32 d.generation in
    let b3 = b2 ++ le32 d.offset in
    let b4 = b3 ++ le32 d.len in
    let b5 = b4 ++ le32 d.schema_id in
    let r5 = le32 d.pad ++ rest in
    let r4 = le32 d.schema_id ++ r5 in
    let r3 = le32 d.len ++ r4 in
    let r2 = le32 d.offset ++ r3 in
    record {
      segment_id = u32_at-le32 before (le32 d.generation ++ r2) d.segment_id off e f.segment_fits i;
      generation = u32_behind before b1 r2 d.generation off 4 e refl f.generation_fits i;
      offset = u32_behind before b2 r3 d.offset off 8 e refl f.offset_fits i;
      len = u32_behind before b3 r4 d.len off 12 e refl f.len_fits i;
      schema_id = u32_behind before b4 r5 d.schema_id off 16 e refl f.schema_fits i;
      pad = u32_behind before b5 rest d.pad off 20 e refl f.pad_fits i;
    }

-- A member whose padding is zero.
pub record MemberFits (k : KeptMember) : Type 0 where
  pub version_fits : k.version < 2 ^ 64
  pub batches_fit : k.batches < 2 ^ 32
  pub padded : k.pad ≡ 0

member_at-member_bytes :
    (before rest : Bytes) (k : KeptMember) (off : ℕ)
    → off ≡ length before
    → MemberFits k
    → member_at (before ++ (member_bytes k ++ rest)) off ≡ k
member_at-member_bytes before rest k off e f = λ i. record {
  version =
      u64_at-le64 before (le32 k.batches ++ (le32 0 ++ rest)) k.version off e f.version_fits i;
  batches =
      u32_behind before (le64 k.version) (le32 0 ++ rest) k.batches off 8 e refl f.batches_fit i;
  pad =
      (u32_behind before (le64 k.version ++ le32 k.batches) rest 0 off 12 e refl (omega arith)
          ∙ sym f.padded)
        i;
}

abbrev pub SpanFits : ℕ → Type 0
SpanFits v = v < 2 ^ 32

abbrev pub rows : List ChunkDesc → List ℕ → List KeptMember → Bytes → Bytes
rows chunks spans kept rest =
    row_bytes desc_bytes chunks ++ (row_bytes le32 spans ++ (row_bytes member_bytes kept ++ rest))

-- A parse by the header and the rows that it reads.
parse_of :
    (bs : Bytes) (h : VersionManifest) (chunks : List ChunkDesc) (spans : List ℕ)
    (kept : List KeptMember)
    → header_at bs ≡ h
    → manifest_len h.chunk_count h.batch_count h.kept_count ≤ length bs
    → h.magic ≡ manifest_magic
    → is_malformed h ≡ false
    → (is_root h && not (window_ok h.version h.prev_version kept h.batch_count)) ≡ false
    → row_at chunk_at 24 bs 64 h.chunk_count ≡ chunks
    → row_at u32_at 4 bs (64 + h.chunk_count * 24) h.batch_count ≡ spans
    → row_at member_at 16 bs (64 + h.chunk_count * 24 + h.batch_count * 4) h.kept_count ≡ kept
    → parse_manifest_bytes bs ≡ ok (manifest_of h chunks spans kept)
unfolding parse_manifest_bytes
parse_of bs h chunks spans kept e l m sound window c s k =
    ap parse_with e
    ∙ rw
        (
          le→ltb_false (length bs) 64 (omega (arith, l)),
          (==_iff h.magic manifest_magic).1 m,
          sound,
          le→ltb_false (length bs) (manifest_len h.chunk_count h.batch_count h.kept_count) l,
          k,
          window,
        )
        (λ i. ok (manifest_of h (c i) (s i) kept))
  where
    parse_with : VersionManifest → ArtifactResult Manifest
    parse_with g =
        if ltb (length bs) 64
        then err version_gone
        else if not (g.magic == manifest_magic)
        then err bad_magic
        else if is_malformed g
        then err version_gone
        else if ltb (length bs) (manifest_len g.chunk_count g.batch_count g.kept_count)
        then err version_gone
        else rows_of g bs

-- Where the three rows lie behind a header.
module _ (h : VersionManifest) (chunks : List ChunkDesc) (spans : List ℕ) (kept : List KeptMember)
    (rest : Bytes) where
  behind_chunks : 64 + length chunks * 24 ≡ length (header_bytes h ++ row_bytes desc_bytes chunks)
  behind_chunks = omega (
    arith,
    length-append (header_bytes h) (row_bytes desc_bytes chunks),
    length-row_bytes desc_bytes chunk_at 24 IsU32 chunk_at-desc_bytes (λ d. refl) chunks,
  )

  behind_spans :
      64 + length chunks * 24 + length spans * 4
      ≡ length ((header_bytes h ++ row_bytes desc_bytes chunks) ++ row_bytes le32 spans)
  behind_spans = omega (
    arith,
    behind_chunks,
    length-append (header_bytes h ++ row_bytes desc_bytes chunks) (row_bytes le32 spans),
    length-row_bytes le32 u32_at 4 SpanFits u32_at-le32 (λ v. refl) spans,
  )

  pub length-image :
      length (header_bytes h ++ rows chunks spans kept rest)
      ≡ manifest_len (length chunks) (length spans) (length kept) + length rest
  length-image = omega (
    arith,
    behind_spans,
    ap length (
        append_assoc (header_bytes h) (row_bytes desc_bytes chunks)
          (row_bytes le32 spans ++ (row_bytes member_bytes kept ++ rest))),
    ap length (
        append_assoc (header_bytes h ++ row_bytes desc_bytes chunks) (row_bytes le32 spans)
          (row_bytes member_bytes kept ++ rest)),
    length-append ((header_bytes h ++ row_bytes desc_bytes chunks) ++ row_bytes le32 spans)
        (row_bytes member_bytes kept ++ rest),
    length-append (row_bytes member_bytes kept) rest,
    length-row_bytes member_bytes member_at 16 MemberFits member_at-member_bytes (λ k. refl) kept,
  )

-- The three rows behind a header.
module _ (h : VersionManifest) (chunks : List ChunkDesc) (spans : List ℕ) (kept : List KeptMember)
    (rest : Bytes) (cf : AllFit IsU32 chunks) (sf : AllFit SpanFits spans)
    (kf : AllFit MemberFits kept) where
  chunks_back :
      row_at chunk_at 24 (header_bytes h ++ rows chunks spans kept rest) 64 (length chunks) ≡ chunks
  chunks_back =
      row_at-row_bytes desc_bytes chunk_at 24 IsU32 chunk_at-desc_bytes (λ d. refl) (header_bytes h)
        (row_bytes le32 spans ++ (row_bytes member_bytes kept ++ rest)) chunks 64 refl cf

  spans_back :
      row_at u32_at 4
        (header_bytes h ++ rows chunks spans kept rest)
        (64 + length chunks * 24)
        (length spans)
      ≡ spans
  spans_back =
      ap (λ b. row_at u32_at 4 b (64 + length chunks * 24) (length spans))
        (sym (
          append_assoc (header_bytes h) (row_bytes desc_bytes chunks)
            (row_bytes le32 spans ++ (row_bytes member_bytes kept ++ rest))))
      ∙ row_at-row_bytes le32 u32_at 4 SpanFits u32_at-le32 (λ v. refl)
          (header_bytes h ++ row_bytes desc_bytes chunks) (row_bytes member_bytes kept ++ rest)
          spans (64 + length chunks * 24) (behind_chunks h chunks spans kept rest) sf

  kept_back :
      row_at member_at 16
        (header_bytes h ++ rows chunks spans kept rest)
        (64 + length chunks * 24 + length spans * 4)
        (length kept)
      ≡ kept
  kept_back =
      ap (λ b. row_at member_at 16 b (64 + length chunks * 24 + length spans * 4) (length kept))
        (sym (
            append_assoc (header_bytes h) (row_bytes desc_bytes chunks)
              (row_bytes le32 spans ++ (row_bytes member_bytes kept ++ rest)))
          ∙ sym (
              append_assoc (header_bytes h ++ row_bytes desc_bytes chunks) (row_bytes le32 spans)
                (row_bytes member_bytes kept ++ rest)))
      ∙ row_at-row_bytes member_bytes member_at 16 MemberFits member_at-member_bytes (λ k. refl)
          ((header_bytes h ++ row_bytes desc_bytes chunks) ++ row_bytes le32 spans) rest kept
          (64 + length chunks * 24 + length spans * 4) (behind_spans h chunks spans kept rest) kf

  -- An image whose header is sound and counts its rows.
  pub parse-image :
      h.magic ≡ manifest_magic
      → HeaderFits h
      → h.chunk_count ≡ length chunks
      → h.batch_count ≡ length spans
      → h.kept_count ≡ length kept
      → is_malformed h ≡ false
      → (is_root h && not (window_ok h.version h.prev_version kept h.batch_count)) ≡ false
      → parse_manifest_bytes (header_bytes h ++ rows chunks spans kept rest)
        ≡ ok (manifest_of h chunks spans kept)
  unfolding parse_manifest_bytes
  parse-image m f c b k sound window =
      parse_of (header_bytes h ++ rows chunks spans kept rest) h chunks spans kept
        (header_at-header_bytes h (rows chunks spans kept rest) m f)
        (omega (arith, length-image h chunks spans kept rest, m, c, b, k)) m sound window
        (ap (λ n. row_at chunk_at 24 (header_bytes h ++ rows chunks spans kept rest) 64 n) c
          ∙ chunks_back)
        ((λ i.
            row_at u32_at 4 (header_bytes h ++ rows chunks spans kept rest) (64 + c i * 24) (b i))
          ∙ spans_back)
        ((λ i.
            row_at member_at 16 (header_bytes h ++ rows chunks spans kept rest)
              (64 + c i * 24 + b i * 4) (k i))
          ∙ kept_back)
