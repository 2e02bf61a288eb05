-- ===== src/Runtime/Wire.antt =====
-- crates/shm-runtime/src/protocol.rs: the encoding helpers and the cursor over a frame body.
-- A byte is a number below 256; a string is its UTF-8 bytes.
pub mod Reads
use shm_actors.Prelude.{
  ℕ, ◌+◌, ◌-◌, ◌*◌, ◌/◌, ◌%◌, ◌^◌, Bool, true, false, Option, none, some, List, [], ◌∷◌, ◌++◌,
  Result, ok, err, ◌>>=◌, ok_or, ltb, leb, if◌then◌else◌, length, get_elem?, get_or, take, drop,
}
use shm_actors.Core.Desc.{ChunkDesc}

-- `Error::Protocol` with the text of its message.
pub data Error : Type 0 where
  short_u8 short_u32 short_str_len short_str_body invalid_utf8 : Error
  short_bytes_len short_bytes_body short_desc : Error
  unknown_request_tag unknown_response_tag : Error

abbrev pub Bytes : Type 0
Bytes = List ℕ

-- `to_le_bytes` of a u16 and of a u32
abbrev pub le16 : ℕ → Bytes
le16 v = v % 256 ∷ v / 256 % 256 ∷ []

abbrev pub le32 : ℕ → Bytes
le32 v = v % 256 ∷ v / 256 % 256 ∷ v / 65536 % 256 ∷ v / 16777216 % 256 ∷ []

-- `from_le_bytes`, of a slice of two and of four bytes
abbrev pub from_le16 : Bytes → ℕ
from_le16 b = get_or b 0 0 + 256 * get_or b 1 0

abbrev pub from_le32 : Bytes → ℕ
from_le32 b = get_or b 0 0 + 256 * get_or b 1 0 + 65536 * get_or b 2 0 + 16777216 * get_or b 3 0

unfoldable pub put_u32 : Bytes → ℕ → Bytes
put_u32 buf v = buf ++ le32 v

-- `T::try_from(n).unwrap_or(T::MAX)`
abbrev pub saturate : (max n : ℕ) → ℕ
saturate max n = if ltb max n then max else n

unfoldable pub put_str : Bytes → Bytes → Bytes
put_str buf s = let len = saturate (2 ^ 16 - 1) (length s) in (buf ++ le16 len) ++ take len s

unfoldable pub put_bytes : Bytes → Bytes → Bytes
put_bytes buf b = let len = saturate (2 ^ 32 - 1) (length b) in (buf ++ le32 len) ++ take len b

abbrev pub desc_bytes : ChunkDesc → Bytes
desc_bytes d =
    le32 d.segment_id
    ++ (le32 d.generation ++ (le32 d.offset ++ (le32 d.len ++ (le32 d.schema_id ++ le32 d.pad))))

unfoldable pub put_desc : Bytes → ChunkDesc → Bytes
put_desc buf d = buf ++ desc_bytes d

pub record Reader : Type 0 where
  pub buf : Bytes
  pub pos : ℕ

abbrev pub Read : Type 0 → Type 0
Read A = Result Error (A × Reader)

unfoldable pub new : Bytes → Reader
new buf = record { buf = buf; pos = 0 }

-- `buf.get(pos..pos + n)`, and the reader behind it
unfoldable pub get_range : Reader → ℕ → Option Bytes
get_range r n = if leb (r.pos + n) (length r.buf) then some (take n (drop r.pos r.buf)) else none

unfoldable pub skip : Reader → ℕ → Reader
skip r n = record r { pos = r.pos + n }

unfoldable pub u8 : Reader → Read ℕ
u8 r = do b ← ok_or (get_elem? r.buf r.pos) short_u8; ok (b, skip r 1)

unfoldable pub u32 : Reader → Read ℕ
u32 r = do slice ← ok_or (get_range r 4) short_u32; ok (from_le32 slice, skip r 4)

-- `String::from_utf8` is not of this repository: which byte strings it accepts is a parameter.
unfoldable pub string : (Bytes → Bool) → Reader → Read Bytes
string is_utf8 r = do
  lenb ← ok_or (get_range r 2) short_str_len
  let len = from_le16 lenb
  s ← ok_or (get_range (skip r 2) len) short_str_body
  if is_utf8 s then ok (s, skip (skip r 2) len) else err invalid_utf8

unfoldable pub bytes : Reader → Read Bytes
bytes r = do
  lenb ← ok_or (get_range r 4) short_bytes_len
  let len = from_le32 lenb
  b ← ok_or (get_range (skip r 4) len) short_bytes_body
  ok (b, skip (skip r 4) len)

unfoldable pub desc : Reader → Read ChunkDesc
desc r = do
  b ← ok_or (get_range r 24) short_desc
  ok (
    record {
      segment_id = from_le32 (take 4 b);
      generation = from_le32 (take 4 (drop 4 b));
      offset = from_le32 (take 4 (drop 8 b));
      len = from_le32 (take 4 (drop 12 b));
      schema_id = from_le32 (take 4 (drop 16 b));
      pad = from_le32 (take 4 (drop 20 b));
    },
    skip r 24,
  )
