-- ===== src/Artifact/Manifest/RoundTrip.antt =====
-- The parsing of what `write_manifest` writes.
use shm_actors.Prelude.{
  ℕ, ◌+◌, ◌-◌, ◌^◌, ◌≤◌, ◌<◌, ◌≡◌, ◌≢◌, inl, inr, refl, sym, ap, subst, ◌∙◌, Bool, true, false, not,
  Option, none, some, List, [], ◌∷◌, ◌++◌, ok, err, ◌>>=◌, ltb, if◌then◌else◌, length,
  length-append, arith, Bool-cases, err≢ok, ok-injective, ne→==_false,
}
use mathlib.Core.List.{append_assoc}
use shm_actors.Core.Desc.{ChunkDesc}
use shm_actors.Runtime.Wire.{Bytes, le32, desc_bytes}
use shm_actors.Runtime.Wire.Reads.{IsU32}
use shm_actors.Artifact.Error.{Error, ArtifactResult, arrow, unsupported, malformed_window}
use shm_actors.Artifact.Manifest.{
  manifest_magic, VersionManifest, KeptMember, manifest_len, Manifest, ManifestLink, Linked,
  header_bytes, member_bytes, row_bytes, window_members, window_ok, saturating_add, window_of,
  linked_of, image, placed, write_manifest, manifest_of, parse_manifest_bytes,
}
use shm_actors.Artifact.Manifest.Image.{
  AllFit, MemberFits, SpanFits, rows, length-image, parse-image,
}

-- The link is taken, the chunk is allocated, and it is long enough.
placed_inv :
    (r : ArtifactResult Linked) (al : ArtifactResult ChunkDesc) (total : ℕ) (img : Linked → Bytes)
    (desc : ChunkDesc) (bytes : Bytes)
    → (r >>= λ l. al >>= λ d. placed d total (img l)) ≡ ok (desc, bytes)
    → (l : Linked) × (r ≡ ok l) × (bytes ≡ img l) × (total ≤ desc.len)
placed_inv (err x) al total img desc bytes e = absurd (err≢ok e)
placed_inv (ok l) (err x) total img desc bytes e = absurd (err≢ok e)
placed_inv (ok l) (ok d) total img desc bytes e = elim (Bool-cases (ltb d.len total)) [
  | inl b ↦ absurd (err≢ok (ap (λ c. if c then err arrow else ok (d, img l)) (sym b) ∙ e))
  | inr b ↦
      let same = ok-injective (ap (λ c. if c then err arrow else ok (d, img l)) (sym b) ∙ e) in
      (
        l,
        refl,
        sym (ap (λ t. t.1) same),
        subst (λ n. total ≤ n) (ap (λ t. t.0.len) same) (ground (arith, b)),
      )
]

-- The members of a window are older than the version, and their padding is zero.
member_inv :
    (version batch_count : ℕ) (prev : Option ℕ) (total : ℕ) (k : KeptMember) (ks : List KeptMember)
    → window_members version batch_count prev total (k ∷ ks) ≡ true
    → (k.pad ≡ 0)
      × (k.version < version)
      × (window_members version batch_count (some k.version) (total + k.batches) ks ≡ true)
member_inv version batch_count none total k ks e = ground (arith, e)
member_inv version batch_count (some p) total k ks e = ground (arith, e)

members_fit :
    (version batch_count : ℕ) (prev : Option ℕ) (total : ℕ) (kept : List KeptMember)
    → version < 2 ^ 64
    → AllFit (λ k. k.batches < 2 ^ 32) kept
    → window_members version batch_count prev total kept ≡ true
    → AllFit MemberFits kept
members_fit version batch_count prev total [] l f e = tt
members_fit version batch_count prev total (k ∷ ks) l f e =
    let one = member_inv version batch_count prev total k ks e in
    (
      record { version_fits = omega (arith, one.1); batches_fit = f.0; padded = one.0 },
      members_fit version batch_count (some k.version) (total + k.batches) ks l f.1 one.2,
    )

root_inv :
    (version n : ℕ) (window : Option (ℕ × List KeptMember)) (l : Linked)
    → linked_of version n none window ≡ ok l
    → (window_ok version (window_of window).0 (window_of window).1 n ≡ true)
      × (l ≡ record {
        prev_version = (window_of window).0;
        prev_ref = 0;
        prev_gen = 0;
        depth = 0;
        total_batches = n;
      })
unfolding linked_of
root_inv version n window l e =
    elim (Bool-cases (window_ok version (window_of window).0 (window_of window).1 n)) [
      | inl b ↦ (b, ground (arith, b, e))
      | inr b ↦ absurd (
          err≢ok (
            ap
              (λ c.
                if not c
                then err (unsupported malformed_window)
                else ok (record {
                  prev_version = (window_of window).0;
                  prev_ref = 0;
                  prev_gen = 0;
                  depth = 0;
                  total_batches = n;
                }))
              (sym b)
            ∙ e))
    ]

link_inv :
    (version n : ℕ) (link : ManifestLink) (window : Option (ℕ × List KeptMember)) (l : Linked)
    → linked_of version n (some link) window ≡ ok l
    → (link.version < version)
      × (link.version ≢ 0)
      × (link.mref ≢ 0)
      × (window ≡ none)
      × (link.depth ≢ 2 ^ 32 - 1)
      × (l ≡ record {
        prev_version = link.version;
        prev_ref = link.mref;
        prev_gen = link.generation;
        depth = link.depth + 1;
        total_batches = saturating_add n link.total_batches;
      })
unfolding linked_of
link_inv version n link none l e = grind arith
link_inv version n link (some w) l e = grind arith

window_inv :
    (version base : ℕ) (kept : List KeptMember) (n : ℕ)
    → window_ok version base kept n ≡ true
    → (base < version) × (window_members version n none 0 kept ≡ true)
unfolding window_ok
window_inv version base kept n e = ground (arith, e)

-- The three guards of a write were passed.
guards :
    {A : Type 0} (a b c : Bool) (x y z : Error) {r : ArtifactResult A} {v : A}
    → (if a then err x else if b then err y else if c then err z else r) ≡ ok v
    → (a ≡ false) × (b ≡ false) × (c ≡ false) × (r ≡ ok v)
guards true b c x y z e = absurd (err≢ok e)
guards false true c x y z e = absurd (err≢ok e)
guards false false true x y z e = absurd (err≢ok e)
guards false false false x y z e = (refl, refl, refl, e)

module _ (alloc : ℕ → ArtifactResult ChunkDesc) (artifact_id version schema_id : ℕ)
    (chunks : List ChunkDesc) (spans : List ℕ) (desc : ChunkDesc) (bytes : Bytes) where
  write_inv :
      (prev : Option ManifestLink) (window : Option (ℕ × List KeptMember))
      → write_manifest alloc artifact_id version schema_id chunks spans prev window
        ≡ ok (desc, bytes)
      → (length chunks < 2 ^ 32)
        × (length spans < 2 ^ 32)
        × (length (window_of window).1 < 2 ^ 32)
        × ((l : Linked) × (linked_of version (length spans) prev window ≡ ok l)
            × (bytes ≡ image artifact_id version schema_id chunks spans (window_of window).1 l)
            × (manifest_len (length chunks) (length spans) (length (window_of window).1)
                ≤ desc.len))
  unfolding write_manifest
  write_inv prev window e =
      let passed =
        guards (ltb (2 ^ 32 - 1) (length chunks)) (ltb (2 ^ 32 - 1) (length spans))
          (ltb (2 ^ 32 - 1) (length (window_of window).1)) _ _ _ e in
      (
        ground (arith, passed.0),
        ground (arith, passed.1),
        ground (arith, passed.2),
        placed_inv (linked_of version (length spans) prev window)
            (alloc (manifest_len (length chunks) (length spans) (length (window_of window).1)))
            (manifest_len (length chunks) (length spans) (length (window_of window).1))
            (image artifact_id version schema_id chunks spans (window_of window).1) desc bytes
            passed.3,
      )

-- What a link must be for its fields to fit, with the number of batches of the manifest.
abbrev pub LinkFits : Option ManifestLink → ℕ → Type 0
LinkFits none n = Unit {0}
LinkFits (some link) n =
    (link.mref < 2 ^ 64)
    × (link.generation < 2 ^ 32)
    × (link.depth < 2 ^ 32)
    × (n + link.total_batches < 2 ^ 32)

abbrev pub depth_of : Option ManifestLink → ℕ
depth_of none = 0
depth_of (some link) = link.depth + 1

abbrev pub total_of : Option ManifestLink → ℕ → ℕ
total_of none n = n
total_of (some link) n = n + link.total_batches

module _ (artifact_id version schema_id : ℕ) (chunks : List ChunkDesc) (spans : List ℕ)
    (rest : Bytes) (v : version < 2 ^ 64) (a : artifact_id < 2 ^ 32) (s : schema_id < 2 ^ 32)
    (cn : length chunks < 2 ^ 32) (sn : length spans < 2 ^ 32) (cf : AllFit IsU32 chunks)
    (sf : AllFit SpanFits spans) where
  abbrev head_of : List KeptMember → Linked → VersionManifest
  head_of kept l = record {
    magic = manifest_magic;
    version = version;
    artifact_id = artifact_id;
    schema_id = schema_id;
    chunk_count = length chunks;
    batch_count = length spans;
    prev_version = l.prev_version;
    prev_ref = l.prev_ref;
    prev_gen = l.prev_gen;
    depth = l.depth;
    total_batches = l.total_batches;
    kept_count = length kept;
  }

  abbrev written : Option ManifestLink → Option (ℕ × List KeptMember) → Manifest
  written prev window = record {
    artifact_id = artifact_id;
    version = version;
    schema_id = schema_id;
    chunks = chunks;
    batch_spans = spans;
    prev = prev;
    depth = depth_of prev;
    total_batches = total_of prev (length spans);
    window_base = (window_of window).0;
    kept = (window_of window).1;
  }

  parse-root :
      (window : Option (ℕ × List KeptMember)) (l : Linked)
      → length (window_of window).1 < 2 ^ 32
      → AllFit (λ k. k.batches < 2 ^ 32) (window_of window).1
      → linked_of version (length spans) none window ≡ ok l
      → parse_manifest_bytes (
          header_bytes (head_of (window_of window).1 l)
          ++ rows chunks spans (window_of window).1 rest)
        ≡ ok (written none window)
  parse-root window l kn kf e =
      let inv = root_inv version (length spans) window l e in
      let kept = (window_of window).1 in
      let fine = window_inv version (window_of window).0 kept (length spans) inv.0 in
      subst
        (λ l.
          parse_manifest_bytes (header_bytes (head_of kept l) ++ rows chunks spans kept rest)
          ≡ ok (written none window))
        (sym inv.1)
        (parse-image
          (head_of kept (record {
            prev_version = (window_of window).0;
            prev_ref = 0;
            prev_gen = 0;
            depth = 0;
            total_batches = length spans;
          }))
          chunks spans kept rest cf sf (members_fit version (length spans) none 0 kept v kf fine.1)
          refl
          (record {
            version_fits = v;
            artifact_fits = a;
            schema_fits = s;
            chunks_fit = cn;
            batches_fit = sn;
            prev_version_fits = omega (arith, fine.0, v);
            prev_ref_fits = omega arith;
            prev_gen_fits = omega arith;
            depth_fits = omega arith;
            total_fits = sn;
            kept_fits = kn;
          })
          refl refl refl (ground (arith, fine.0)) (rw (inv.0) refl))

  abbrev linked_by : ManifestLink → ℕ → Linked
  linked_by link total = record {
    prev_version = link.version;
    prev_ref = link.mref;
    prev_gen = link.generation;
    depth = link.depth + 1;
    total_batches = total;
  }

  -- The manifest of a header that links another.
  linked_back :
      (link : ManifestLink)
      → link.mref ≢ 0
      → manifest_of
          (head_of [] (linked_by link (length spans + link.total_batches)))
          chunks
          spans
          []
        ≡ written (some link) none
  linked_back link m = rw (ne→==_false link.mref 0 m) (λ i. record {
    artifact_id = artifact_id;
    version = version;
    schema_id = schema_id;
    chunks = chunks;
    batch_spans = spans;
    prev = some (record link { depth = kept_depth i; total_batches = kept_total i });
    depth = link.depth + 1;
    total_batches = length spans + link.total_batches;
    window_base = 0;
    kept = [];
  })
    where
      kept_depth : link.depth + 1 - 1 ≡ link.depth
      kept_depth = omega arith

      kept_total : length spans + link.total_batches - length spans ≡ link.total_batches
      kept_total = omega arith

  parse-linked :
      (link : ManifestLink) (window : Option (ℕ × List KeptMember)) (l : Linked)
      → LinkFits (some link) (length spans)
      → linked_of version (length spans) (some link) window ≡ ok l
      → parse_manifest_bytes (
          header_bytes (head_of (window_of window).1 l)
          ++ rows chunks spans (window_of window).1 rest)
        ≡ ok (written (some link) window)
  parse-linked link window l lf e =
      let inv = link_inv version (length spans) link window l e in
      let total : saturating_add (length spans) link.total_batches
          ≡ length spans + link.total_batches =
        ground (arith, lf.3) in
      subst
        (λ w.
          parse_manifest_bytes
            (header_bytes (head_of (window_of w).1 l) ++ rows chunks spans (window_of w).1 rest)
          ≡ ok (written (some link) w))
        (sym inv.3)
        (subst
          (λ l.
            parse_manifest_bytes (header_bytes (head_of [] l) ++ rows chunks spans [] rest)
            ≡ ok (written (some link) none))
          (sym (inv.5 ∙ ap (linked_by link) total))
          (parse-image (head_of [] (linked_by link (length spans + link.total_batches))) chunks
              spans [] rest cf sf tt refl
              (record {
                version_fits = v;
                artifact_fits = a;
                schema_fits = s;
                chunks_fit = cn;
                batches_fit = sn;
                prev_version_fits = omega (arith, inv.0, v);
                prev_ref_fits = lf.0;
                prev_gen_fits = lf.1;
                depth_fits = omega (arith, lf.2, inv.4);
                total_fits = lf.3;
                kept_fits = omega arith;
              })
              refl refl refl (ground (arith, inv.0, inv.1, inv.2))
              (rw (ne→==_false link.mref 0 inv.2) refl)
            ∙ ap ok (linked_back link inv.2)))

  image-rows :
      (kept : List KeptMember) (l : Linked)
      → image artifact_id version schema_id chunks spans kept l ++ rest
        ≡ header_bytes (head_of kept l) ++ rows chunks spans kept rest
  image-rows kept l =
      ap (λ b. header_bytes (head_of kept l) ++ b)
        (append_assoc (row_bytes desc_bytes chunks)
            (row_bytes le32 spans ++ row_bytes member_bytes kept) rest
          ∙ ap (λ b. row_bytes desc_bytes chunks ++ b)
              (append_assoc (row_bytes le32 spans) (row_bytes member_bytes kept) rest))

  parse-linked_of :
      (prev : Option ManifestLink) (window : Option (ℕ × List KeptMember)) (l : Linked)
      → length (window_of window).1 < 2 ^ 32
      → AllFit (λ k. k.batches < 2 ^ 32) (window_of window).1
      → LinkFits prev (length spans)
      → linked_of version (length spans) prev window ≡ ok l
      → parse_manifest_bytes
          (image artifact_id version schema_id chunks spans (window_of window).1 l ++ rest)
        ≡ ok (written prev window)
  parse-linked_of none window l kn kf lf e =
      ap parse_manifest_bytes (image-rows (window_of window).1 l) ∙ parse-root window l kn kf e
  parse-linked_of (some link) window l kn kf lf e =
      ap parse_manifest_bytes (image-rows (window_of window).1 l) ∙ parse-linked link window l lf e

-- A manifest that `write_manifest` writes is parsed back, whatever lies behind it in its chunk:
-- the artifact, the version, the schema, the chunks, the batches, the link or the window, with the
-- depth and the batches of the whole chain. The chunk is long enough for it. The numbers fit their
-- fields, and the batches of the chain fit a u32.
pub parse-write_manifest :
    (alloc : ℕ → ArtifactResult ChunkDesc) (artifact_id version schema_id : ℕ)
    (chunks : List ChunkDesc) (spans : List ℕ) (prev : Option ManifestLink)
    (window : Option (ℕ × List KeptMember)) (desc : ChunkDesc) (bytes rest : Bytes)
    → version < 2 ^ 64
    → artifact_id < 2 ^ 32
    → schema_id < 2 ^ 32
    → AllFit IsU32 chunks
    → AllFit SpanFits spans
    → AllFit (λ k. k.batches < 2 ^ 32) (window_of window).1
    → LinkFits prev (length spans)
    → write_manifest alloc artifact_id version schema_id chunks spans prev window ≡ ok (desc, bytes)
    → (parse_manifest_bytes (bytes ++ rest)
        ≡ ok (record {
          artifact_id = artifact_id;
          version = version;
          schema_id = schema_id;
          chunks = chunks;
          batch_spans = spans;
          prev = prev;
          depth = depth_of prev;
          total_batches = total_of prev (length spans);
          window_base = (window_of window).0;
          kept = (window_of window).1;
        }))
      × (length bytes ≤ desc.len)
parse-write_manifest alloc artifact_id version schema_id chunks spans prev window desc bytes rest v
      a s cf sf kf lf e =
    let w = write_inv alloc artifact_id version schema_id chunks spans desc bytes prev window e in
    let l = w.3 in
    (
      ap (λ b. parse_manifest_bytes (b ++ rest)) l.2
          ∙ parse-linked_of artifact_id version schema_id chunks spans rest v a s w.0 w.1 cf sf prev
              window l.0 w.2 kf lf l.1,
      omega (
        arith,
        l.3,
        ap length l.2,
        length-append bytes rest,
        ap length (ap (λ b. b ++ rest) l.2),
        ap length (
            image-rows artifact_id version schema_id chunks spans rest v a s w.0 w.1 cf sf
              (window_of window).1 l.0),
        length-image
            (head_of artifact_id version schema_id chunks spans rest v a s w.0 w.1 cf sf
              (window_of window).1 l.0)
            chunks spans (window_of window).1 rest,
      ),
    )
