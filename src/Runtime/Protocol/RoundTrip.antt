-- ===== src/Runtime/Protocol/RoundTrip.antt =====
-- The decoding of what was encoded.
use shm_actors.Prelude.{
  ℕ, ◌^◌, ◌<◌, ◌≡◌, Bool, true, [], ◌∷◌, ◌++◌, ok, err, if◌then◌else◌, length, arith, refl, ap, ◌∙◌,
  sym,
}
use mathlib.Core.List.{append-nil}
use shm_actors.Core.Desc.{ChunkDesc}
use shm_actors.Runtime.Wire.{
  Bytes, le16, le32, desc_bytes, put_u32, put_desc, put_str, put_bytes, u8, u32, string, bytes,
  desc, new, skip, invalid_utf8,
}
use shm_actors.Runtime.Wire.Reads.{
  at, u32-at, string-at, bytes-at, desc-at, IsU32, clip, length-clip, clip_of_short, put_str-clip,
  put_bytes_short,
}
use shm_actors.Runtime.Protocol.{
  Response, registered, granted, ack, error, artifact_granted, task_queue_granted, schema_interned,
  schema_resolved, key_interned, key_resolved, store_granted, encode_response, Request, register,
  heartbeat, create_topic, subscribe, published, pinned, bye, open_artifact, open_task_queue,
  intern_schema, resolve_schema, intern_key, resolve_key, open_store, encode_request,
  decode_request, decode_response, request_fields, response_fields, made,
}

-- The reader behind the tag of a body.
u8-at : (tag : ℕ) (rest : Bytes) → u8 (new (tag ∷ rest)) ≡ ok (tag, at (tag ∷ []) rest)
unfolding u8 new at skip
u8-at tag rest = refl

-- The body of one field behind a tag, and reading it back.
pub str_body :
    (tag : ℕ) (s : Bytes) → put_str (tag ∷ []) s ≡ tag ∷ (le16 (length (clip s)) ++ (clip s ++ []))
str_body tag s =
    put_str-clip (tag ∷ []) s
    ∙ ap (λ t. tag ∷ (le16 (length (clip s)) ++ t)) (sym (append-nil (clip s)))

bytes_body :
    (tag : ℕ) (b : Bytes)
    → length b < 2 ^ 32
    → put_bytes (tag ∷ []) b ≡ tag ∷ (le32 (length b) ++ (b ++ []))
bytes_body tag b h =
    put_bytes_short (tag ∷ []) b h ∙ ap (λ t. tag ∷ (le32 (length b) ++ t)) (sym (append-nil b))

module _ (is_utf8 : Bytes → Bool) where
  pub request-tag :
      (tag : ℕ) (rest : Bytes)
      → decode_request is_utf8 (tag ∷ rest) ≡ request_fields is_utf8 tag (at (tag ∷ []) rest)
  unfolding decode_request
  request-tag tag rest = rw (u8-at tag rest)

  pub response-tag :
      (tag : ℕ) (rest : Bytes)
      → decode_response is_utf8 (tag ∷ rest) ≡ response_fields is_utf8 tag (at (tag ∷ []) rest)
  unfolding decode_response
  response-tag tag rest = rw (u8-at tag rest)

  module _ {A : Type 0} (tag : ℕ) where
    pub made-clipped :
        (f : Bytes → A) (s : Bytes)
        → made f (string is_utf8 (at (tag ∷ []) (le16 (length (clip s)) ++ (clip s ++ []))))
          ≡ (if is_utf8 (clip s) then ok (f (clip s)) else err invalid_utf8)
    made-clipped f s = rw (string-at is_utf8 (tag ∷ []) (clip s) [] (length-clip s)) (ground arith)

    made-string :
        (f : Bytes → A) (s : Bytes)
        → length s < 2 ^ 16
        → is_utf8 s ≡ true
        → made f (string is_utf8 (at (tag ∷ []) (le16 (length (clip s)) ++ (clip s ++ []))))
          ≡ ok (f s)
    made-string f s h valid = rw (made-clipped f s, clip_of_short s h, valid)

    made-bytes :
        (f : Bytes → A) (b : Bytes)
        → length b < 2 ^ 32
        → made f (bytes (at (tag ∷ []) (le32 (length b) ++ (b ++ [])))) ≡ ok (f b)
    made-bytes f b h = rw (bytes-at (tag ∷ []) b [] h)

    made-desc :
        (f : ChunkDesc → A) (d : ChunkDesc)
        → IsU32 d
        → made f (desc (at (tag ∷ []) (desc_bytes d ++ []))) ≡ ok (f d)
    made-desc f d v = rw (desc-at (tag ∷ []) [] d v)

    made-u32 :
        (f : ℕ → A) (before : Bytes) (v : ℕ)
        → v < 2 ^ 32
        → made f (u32 (at before (le32 v ++ []))) ≡ ok (f v)
    made-u32 f before v h = rw (u32-at before [] v h)

  -- Names are UTF-8 and shorter than 2^16 bytes, blobs are shorter than 2^32, and every number is
  -- a u32.
  abbrev pub FitsRequest : Request → Type 0
  FitsRequest (register name) = (length name < 2 ^ 16) × (is_utf8 name ≡ true)
  FitsRequest (create_topic topic) = (length topic < 2 ^ 16) × (is_utf8 topic ≡ true)
  FitsRequest (subscribe topic) = (length topic < 2 ^ 16) × (is_utf8 topic ≡ true)
  FitsRequest (published d) = IsU32 d
  FitsRequest (pinned d) = IsU32 d
  FitsRequest (open_artifact name) = (length name < 2 ^ 16) × (is_utf8 name ≡ true)
  FitsRequest (intern_schema schema_bytes) = length schema_bytes < 2 ^ 32
  FitsRequest (resolve_schema schema_id) = schema_id < 2 ^ 32
  FitsRequest (intern_key key_bytes) = length key_bytes < 2 ^ 32
  FitsRequest (resolve_key key_id) = key_id < 2 ^ 32
  FitsRequest _ = Unit {0}

  -- Every request is decoded from its own encoding, if its name is UTF-8 and shorter than 2^16
  -- bytes, its blob is shorter than 2^32 bytes, and its numbers are u32.
  pub decode-encode_request :
      (req : Request) → FitsRequest req → decode_request is_utf8 (encode_request req) ≡ ok req
  unfolding encode_request put_desc put_u32
  decode-encode_request (register name) (h, u) =
      rw (str_body 1 name, request-tag 1, made-string 1 register name h u)
  decode-encode_request heartbeat h = rw (request-tag 2)
  decode-encode_request (create_topic topic) (h, u) =
      rw (str_body 3 topic, request-tag 3, made-string 3 create_topic topic h u)
  decode-encode_request (subscribe topic) (h, u) =
      rw (str_body 4 topic, request-tag 4, made-string 4 subscribe topic h u)
  decode-encode_request (published d) v = rw (request-tag 5, made-desc 5 published d v)
  decode-encode_request (pinned d) v = rw (request-tag 6, made-desc 6 pinned d v)
  decode-encode_request bye h = rw (request-tag 7)
  decode-encode_request (open_artifact name) (h, u) =
      rw (str_body 8 name, request-tag 8, made-string 8 open_artifact name h u)
  decode-encode_request open_task_queue h = rw (request-tag 9)
  decode-encode_request (intern_schema b) h =
      rw (bytes_body 10 b h, request-tag 10, made-bytes 10 intern_schema b h)
  decode-encode_request (resolve_schema v) h =
      rw (request-tag 11, made-u32 11 resolve_schema (11 ∷ []) v h)
  decode-encode_request (intern_key b) h =
      rw (bytes_body 12 b h, request-tag 12, made-bytes 12 intern_key b h)
  decode-encode_request (resolve_key v) h =
      rw (request-tag 13, made-u32 13 resolve_key (13 ∷ []) v h)
  decode-encode_request open_store h = rw (request-tag 14)

  abbrev pub FitsResponse : Response → Type 0
  FitsResponse (registered a j p s) = (a < 2 ^ 32) × (j < 2 ^ 32) × (p < 2 ^ 32) × (s < 2 ^ 32)
  FitsResponse (granted r l) = (r < 2 ^ 32) × (l < 2 ^ 32)
  FitsResponse ack = Unit {0}
  FitsResponse (error message) = (length message < 2 ^ 16) × (is_utf8 message ≡ true)
  FitsResponse (artifact_granted n h d) = (n < 2 ^ 32) × (h < 2 ^ 32) × (d < 2 ^ 32)
  FitsResponse (task_queue_granted q l) = (q < 2 ^ 32) × (l < 2 ^ 32)
  FitsResponse (schema_interned v) = v < 2 ^ 32
  FitsResponse (schema_resolved b) = length b < 2 ^ 32
  FitsResponse (key_interned v) = v < 2 ^ 32
  FitsResponse (key_resolved b) = length b < 2 ^ 32
  FitsResponse (store_granted c cl h hl d dl) =
      (c < 2 ^ 32) × (cl < 2 ^ 32) × (h < 2 ^ 32) × (hl < 2 ^ 32) × (d < 2 ^ 32) × (dl < 2 ^ 32)

  -- Every response is decoded from its own encoding, if its message is UTF-8 and shorter than
  -- 2^16 bytes, its blob is shorter than 2^32 bytes, and its numbers are u32.
  pub decode-encode_response :
      (resp : Response)
      → FitsResponse resp
      → decode_response is_utf8 (encode_response resp) ≡ ok resp
  unfolding encode_response put_u32
  decode-encode_response (registered a j p s) (ha, hj, hp, hs) =
      let b₁ : Bytes = 128 ∷ le32 a in
      let b₂ : Bytes = b₁ ++ le32 j in
      let b₃ : Bytes = b₂ ++ le32 p in
      rw (
        response-tag 128,
        u32-at (128 ∷ []) (le32 j ++ (le32 p ++ (le32 s ++ []))) a ha,
        u32-at b₁ (le32 p ++ (le32 s ++ [])) j hj,
        u32-at b₂ (le32 s ++ []) p hp,
        u32-at b₃ [] s hs,
      )
  decode-encode_response (granted r l) (hr, hl) =
      rw (response-tag 129, u32-at (129 ∷ []) (le32 l ++ []) r hr, u32-at (129 ∷ le32 r) [] l hl)
  decode-encode_response ack h = rw (response-tag 130)
  decode-encode_response (error message) (h, u) =
      rw (str_body 131 message, response-tag 131, made-string 131 error message h u)
  decode-encode_response (artifact_granted n h d) (hn, hh, hd) = rw (
    response-tag 132,
    u32-at (132 ∷ []) (le32 h ++ (le32 d ++ [])) n hn,
    u32-at (132 ∷ le32 n) (le32 d ++ []) h hh,
    u32-at ((132 ∷ le32 n) ++ le32 h) [] d hd,
  )
  decode-encode_response (task_queue_granted q l) (hq, hl) =
      rw (response-tag 133, u32-at (133 ∷ []) (le32 l ++ []) q hq, u32-at (133 ∷ le32 q) [] l hl)
  decode-encode_response (schema_interned v) h =
      rw (response-tag 134, made-u32 134 schema_interned (134 ∷ []) v h)
  decode-encode_response (schema_resolved b) h =
      rw (bytes_body 135 b h, response-tag 135, made-bytes 135 schema_resolved b h)
  decode-encode_response (key_interned v) h =
      rw (response-tag 136, made-u32 136 key_interned (136 ∷ []) v h)
  decode-encode_response (key_resolved b) h =
      rw (bytes_body 137 b h, response-tag 137, made-bytes 137 key_resolved b h)
  decode-encode_response (store_granted c cl h hl d dl) v =
      let b₁ : Bytes = 138 ∷ le32 c in
      let b₂ : Bytes = b₁ ++ le32 cl in
      let b₃ : Bytes = b₂ ++ le32 h in
      let b₄ : Bytes = b₃ ++ le32 hl in
      let b₅ : Bytes = b₄ ++ le32 d in
      rw (
        response-tag 138,
        u32-at (138 ∷ []) (le32 cl ++ (le32 h ++ (le32 hl ++ (le32 d ++ (le32 dl ++ []))))) c v.0,
        u32-at b₁ (le32 h ++ (le32 hl ++ (le32 d ++ (le32 dl ++ [])))) cl v.1,
        u32-at b₂ (le32 hl ++ (le32 d ++ (le32 dl ++ []))) h v.2,
        u32-at b₃ (le32 d ++ (le32 dl ++ [])) hl v.3,
        u32-at b₄ (le32 dl ++ []) d v.4,
        u32-at b₅ [] dl v.5,
      )
