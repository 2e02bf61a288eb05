-- ===== src/Runtime/Wire/Reads.antt =====
-- The reads of what the matching writes put.
use shm_actors.Prelude.{
  ℕ, zero, suc, ◌+◌, ◌-◌, ◌^◌, ◌≤◌, ◌<◌, ◌≡◌, Bool, some, List, [], ◌∷◌, ◌++◌, ok, err,
  if◌then◌else◌, length, length-append, take, take-append, drop-append, arith, refl, ap, le→leb,
  le→ltb_false, lt→ltb, dec_lt,
}
use mathlib.Core.List.{append_assoc}
use shm_actors.Core.Desc.{ChunkDesc}
use shm_actors.Runtime.Wire.{
  Bytes, le16, le32, from_le16, from_le32, desc_bytes, Reader, get_range, skip, u32, string, bytes,
  desc, invalid_utf8, put_str, put_bytes,
}

-- A reader that stands behind `before`, in front of `xs`.
unfoldable pub at : Bytes → Bytes → Reader
at before rest = record { buf = before ++ rest; pos = length before }

pub get_range-at :
    (before xs rest : Bytes) (n : ℕ)
    → n ≡ length xs
    → get_range (at before (xs ++ rest)) n ≡ some xs
unfolding get_range at
get_range-at before xs rest n e =
    rw (e, drop-append before (xs ++ rest), take-append xs rest, le→leb _ _ fits)
  where
    fits : length before + length xs ≤ length (before ++ (xs ++ rest))
    fits = omega (arith, length-append before (xs ++ rest), length-append xs rest)

pub skip-at :
    (before xs rest : Bytes) (n : ℕ)
    → n ≡ length xs
    → skip (at before (xs ++ rest)) n ≡ at (before ++ xs) rest
unfolding skip at
skip-at before xs rest n e = ground (arith, append_assoc before xs rest, length-append before xs)

pub from_le32-le32 : (v : ℕ) → v < 2 ^ 32 → from_le32 (le32 v) ≡ v
from_le32-le32 v h = omega arith

pub from_le16-le16 : (v : ℕ) → v < 2 ^ 16 → from_le16 (le16 v) ≡ v
from_le16-le16 v h = omega arith

pub u32-at :
    (before rest : Bytes) (v : ℕ)
    → v < 2 ^ 32
    → u32 (at before (le32 v ++ rest)) ≡ ok (v, at (before ++ le32 v) rest)
unfolding u32
u32-at before rest v h =
    rw (get_range-at before (le32 v) rest 4 refl, u32, skip-at before (le32 v) rest 4 refl)
      (ap (λ w. ok (w, at (before ++ le32 v) rest)) (from_le32-le32 v h))

pub string-at :
    (is_utf8 : Bytes → Bool) (before s rest : Bytes)
    → length s < 2 ^ 16
    → string is_utf8 (at before (le16 (length s) ++ (s ++ rest)))
      ≡ (if is_utf8 s then ok (s, at ((before ++ le16 (length s)) ++ s) rest) else err invalid_utf8)
unfolding string
string-at is_utf8 before s rest h = rw (
  get_range-at before (le16 (length s)) (s ++ rest) 2 refl,
  string,
  skip-at before (le16 (length s)) (s ++ rest) 2 refl,
  from_le16-le16 (length s) h,
  get_range-at (before ++ le16 (length s)) s rest (length s) refl,
  skip-at (before ++ le16 (length s)) s rest (length s) refl,
)

pub bytes-at :
    (before b rest : Bytes)
    → length b < 2 ^ 32
    → bytes (at before (le32 (length b) ++ (b ++ rest)))
      ≡ ok (b, at ((before ++ le32 (length b)) ++ b) rest)
unfolding bytes
bytes-at before b rest h = rw (
  get_range-at before (le32 (length b)) (b ++ rest) 4 refl,
  bytes,
  skip-at before (le32 (length b)) (b ++ rest) 4 refl,
  from_le32-le32 (length b) h,
  get_range-at (before ++ le32 (length b)) b rest (length b) refl,
  skip-at (before ++ le32 (length b)) b rest (length b) refl,
)

-- Every field is a u32.
pub record IsU32 (d : ChunkDesc) : Type 0 where
  pub segment_fits : d.segment_id < 2 ^ 32
  pub generation_fits : d.generation < 2 ^ 32
  pub offset_fits : d.offset < 2 ^ 32
  pub len_fits : d.len < 2 ^ 32
  pub schema_fits : d.schema_id < 2 ^ 32
  pub pad_fits : d.pad < 2 ^ 32

pub desc-at :
    (before rest : Bytes) (d : ChunkDesc)
    → IsU32 d
    → desc (at before (desc_bytes d ++ rest)) ≡ ok (d, at (before ++ desc_bytes d) rest)
unfolding desc
desc-at before rest d v =
    rw
      (
        get_range-at before (desc_bytes d) rest 24 refl,
        desc,
        skip-at before (desc_bytes d) rest 24 refl,
      )
      (ap (λ (e : ChunkDesc). ok (e, at (before ++ desc_bytes d) rest)) same)
  where
    same :
        record {
          segment_id = from_le32 (le32 d.segment_id);
          generation = from_le32 (le32 d.generation);
          offset = from_le32 (le32 d.offset);
          len = from_le32 (le32 d.len);
          schema_id = from_le32 (le32 d.schema_id);
          pad = from_le32 (le32 d.pad);
        }
        ≡ d
    same = ground (
      arith,
      from_le32-le32 d.segment_id v.segment_fits,
      from_le32-le32 d.generation v.generation_fits,
      from_le32-le32 d.offset v.offset_fits,
      from_le32-le32 d.len v.len_fits,
      from_le32-le32 d.schema_id v.schema_fits,
      from_le32-le32 d.pad v.pad_fits,
    )

-- A prefix that does not reach past the end is the whole.
pub take-all {ℓ} : {A : Type ℓ} (n : ℕ) (xs : List A) → length xs ≤ n → take n xs ≡ xs
take-all zero [] h = refl
take-all zero (x ∷ xs) h = absurd (omega arith)
take-all (suc n) [] h = refl
take-all (suc n) (x ∷ xs) h = ap (λ ys. x ∷ ys) (take-all n xs (omega arith))

pub length-take_le {ℓ} : {A : Type ℓ} (n : ℕ) (xs : List A) → length (take n xs) ≤ n
length-take_le zero xs = omega arith
length-take_le (suc n) [] = omega arith
length-take_le (suc n) (x ∷ xs) = omega (arith, length-take_le n xs)

length-take_of_le {ℓ} : {A : Type ℓ} (n : ℕ) (xs : List A) → n ≤ length xs → length (take n xs) ≡ n
length-take_of_le zero xs h = refl
length-take_of_le (suc n) [] h = absurd (omega arith)
length-take_of_le (suc n) (x ∷ xs) h = ap suc (length-take_of_le n xs (omega arith))

-- What `put_str` keeps of a string.
unfoldable pub clip : Bytes → Bytes
clip s = take (2 ^ 16 - 1) s

pub length-clip : (s : Bytes) → length (clip s) < 2 ^ 16
unfolding clip
length-clip s = omega (arith, length-take_le (2 ^ 16 - 1) s)

pub clip_of_short : (s : Bytes) → length s < 2 ^ 16 → clip s ≡ s
unfolding clip
clip_of_short s h = take-all (2 ^ 16 - 1) s (omega arith)

pub put_str-clip : (buf s : Bytes) → put_str buf s ≡ (buf ++ le16 (length (clip s))) ++ clip s
unfolding put_str clip
put_str-clip buf s = elim (dec_lt (2 ^ 16 - 1) (length s)) [
  | yes long ↦ rw (lt→ltb _ _ long, length-take_of_le (2 ^ 16 - 1) s (omega arith))
  | no short ↦ rw (
    le→ltb_false (2 ^ 16 - 1) (length s) (omega arith),
    take-all (2 ^ 16 - 1) s (omega arith),
    take-all (length s) s (omega arith),
  )
]

pub put_bytes_short :
    (buf b : Bytes) → length b < 2 ^ 32 → put_bytes buf b ≡ (buf ++ le32 (length b)) ++ b
unfolding put_bytes
put_bytes_short buf b h =
    rw (le→ltb_false (2 ^ 32 - 1) (length b) (omega arith), take-all (length b) b (omega arith))
