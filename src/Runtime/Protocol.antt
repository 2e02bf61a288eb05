-- ===== src/Runtime/Protocol.antt =====
-- crates/shm-runtime/src/protocol.rs: the messages, their encoders and their decoders.
pub mod RoundTrip
pub mod Refusals
use shm_actors.Prelude.{
  ℕ, ◌+◌, Bool, true, false, List, [], ◌∷◌, ◌++◌, Result, ok, err, ◌>>=◌, ◌==◌, if◌then◌else◌,
}
use shm_actors.Core.Desc.{ChunkDesc}
use shm_actors.Runtime.Wire.{
  Error, unknown_request_tag, unknown_response_tag, Bytes, Reader, Read, new, put_u32, put_str,
  put_bytes, put_desc, u8, u32, string, bytes, desc,
}

pub data Request : Type 0 where
  register : (name : Bytes) → Request
  heartbeat : Request
  create_topic : (topic : Bytes) → Request
  subscribe : (topic : Bytes) → Request
  published : ChunkDesc → Request
  pinned : ChunkDesc → Request
  bye : Request
  open_artifact : (name : Bytes) → Request
  open_task_queue : Request
  intern_schema : (schema_bytes : Bytes) → Request
  resolve_schema : (schema_id : ℕ) → Request
  intern_key : (key_bytes : Bytes) → Request
  resolve_key : (key_id : ℕ) → Request
  open_store : Request

pub data Response : Type 0 where
  registered : (actor_id journal_idx payload_seg_id journal_seg_id : ℕ) → Response
  granted : (ring_seg_id region_len : ℕ) → Response
  ack : Response
  error : (message : Bytes) → Response
  artifact_granted : (name_id head_seg_id data_seg_id : ℕ) → Response
  task_queue_granted : (queue_seg_id region_len : ℕ) → Response
  schema_interned : (schema_id : ℕ) → Response
  schema_resolved : (schema_bytes : Bytes) → Response
  key_interned : (key_id : ℕ) → Response
  key_resolved : (key_bytes : Bytes) → Response
  store_granted :
      (catalog_seg_id catalog_len head_seg_id head_len data_seg_id data_len : ℕ) → Response

unfoldable pub response_fd_count : Response → ℕ
response_fd_count (registered a j p s) = 2
response_fd_count (granted r l) = 2
response_fd_count (artifact_granted n h d) = 2
response_fd_count (task_queue_granted q l) = 5
response_fd_count (store_granted c cl h hl d dl) = 3
response_fd_count _ = 0

-- The first byte of a body, `tags`.
abbrev tagged : ℕ → Bytes
tagged tag = tag ∷ []

unfoldable pub encode_request : Request → Bytes
encode_request (register name) = put_str (tagged 1) name
encode_request heartbeat = tagged 2
encode_request (create_topic topic) = put_str (tagged 3) topic
encode_request (subscribe topic) = put_str (tagged 4) topic
encode_request (published d) = put_desc (tagged 5) d
encode_request (pinned d) = put_desc (tagged 6) d
encode_request bye = tagged 7
encode_request (open_artifact name) = put_str (tagged 8) name
encode_request open_task_queue = tagged 9
encode_request (intern_schema schema_bytes) = put_bytes (tagged 10) schema_bytes
encode_request (resolve_schema schema_id) = put_u32 (tagged 11) schema_id
encode_request (intern_key key_bytes) = put_bytes (tagged 12) key_bytes
encode_request (resolve_key key_id) = put_u32 (tagged 13) key_id
encode_request open_store = tagged 14

unfoldable pub encode_response : Response → Bytes
encode_response (registered a j p s) = put_u32 (put_u32 (put_u32 (put_u32 (tagged 128) a) j) p) s
encode_response (granted r l) = put_u32 (put_u32 (tagged 129) r) l
encode_response ack = tagged 130
encode_response (error message) = put_str (tagged 131) message
encode_response (artifact_granted n h d) = put_u32 (put_u32 (put_u32 (tagged 132) n) h) d
encode_response (task_queue_granted q l) = put_u32 (put_u32 (tagged 133) q) l
encode_response (schema_interned schema_id) = put_u32 (tagged 134) schema_id
encode_response (schema_resolved schema_bytes) = put_bytes (tagged 135) schema_bytes
encode_response (key_interned key_id) = put_u32 (tagged 136) key_id
encode_response (key_resolved key_bytes) = put_bytes (tagged 137) key_bytes
encode_response (store_granted c cl h hl d dl) =
    put_u32 (put_u32 (put_u32 (put_u32 (put_u32 (put_u32 (tagged 138) c) cl) h) hl) d) dl

-- A decoder's last read: the message made of what it read.
abbrev pub made {ℓ} : {A : Type 0} {B : Type ℓ} → (A → B) → Read A → Result Error B
made f r = r >>= λ p. ok (f p.0)

abbrev pub request_fields : (Bytes → Bool) → ℕ → Reader → Result Error Request
request_fields is_utf8 tag r =
    if tag == 1
    then made register (string is_utf8 r)
    else if tag == 2
    then ok heartbeat
    else if tag == 3
    then made create_topic (string is_utf8 r)
    else if tag == 4
    then made subscribe (string is_utf8 r)
    else if tag == 5
    then made published (desc r)
    else if tag == 6
    then made pinned (desc r)
    else if tag == 7
    then ok bye
    else if tag == 8
    then made open_artifact (string is_utf8 r)
    else if tag == 9
    then ok open_task_queue
    else if tag == 10
    then made intern_schema (bytes r)
    else if tag == 11
    then made resolve_schema (u32 r)
    else if tag == 12
    then made intern_key (bytes r)
    else if tag == 13
    then made resolve_key (u32 r)
    else if tag == 14
    then ok open_store
    else err unknown_request_tag

unfoldable pub decode_request : (Bytes → Bool) → Bytes → Result Error Request
decode_request is_utf8 body = do (tag, r) ← u8 (new body); request_fields is_utf8 tag r

abbrev pub read_registered : Reader → Result Error Response
read_registered r = do
  (a, r₁) ← u32 r
  (j, r₂) ← u32 r₁
  (p, r₃) ← u32 r₂
  made (registered a j p) (u32 r₃)

abbrev pub read_granted : Reader → Result Error Response
read_granted r = do (s, r₁) ← u32 r; made (granted s) (u32 r₁)

abbrev pub read_artifact_granted : Reader → Result Error Response
read_artifact_granted r = do (n, r₁) ← u32 r; (h, r₂) ← u32 r₁; made (artifact_granted n h) (u32 r₂)

abbrev pub read_task_queue_granted : Reader → Result Error Response
read_task_queue_granted r = do (q, r₁) ← u32 r; made (task_queue_granted q) (u32 r₁)

abbrev pub read_store_granted : Reader → Result Error Response
read_store_granted r = do
  (c, r₁) ← u32 r
  (cl, r₂) ← u32 r₁
  (h, r₃) ← u32 r₂
  (hl, r₄) ← u32 r₃
  (d, r₅) ← u32 r₄
  made (store_granted c cl h hl d) (u32 r₅)

abbrev pub response_fields : (Bytes → Bool) → ℕ → Reader → Result Error Response
response_fields is_utf8 tag r =
    if tag == 128
    then read_registered r
    else if tag == 129
    then read_granted r
    else if tag == 130
    then ok ack
    else if tag == 131
    then made error (string is_utf8 r)
    else if tag == 132
    then read_artifact_granted r
    else if tag == 133
    then read_task_queue_granted r
    else if tag == 134
    then made schema_interned (u32 r)
    else if tag == 135
    then made schema_resolved (bytes r)
    else if tag == 136
    then made key_interned (u32 r)
    else if tag == 137
    then made key_resolved (bytes r)
    else if tag == 138
    then read_store_granted r
    else err unknown_response_tag

unfoldable pub decode_response : (Bytes → Bool) → Bytes → Result Error Response
decode_response is_utf8 body = do (tag, r) ← u8 (new body); response_fields is_utf8 tag r
