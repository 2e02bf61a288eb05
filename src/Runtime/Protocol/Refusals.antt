-- ===== src/Runtime/Protocol/Refusals.antt =====
-- What the decoders refuse, and what the encoders cut off.
use shm_actors.Prelude.{ℕ, ◌<◌, ◌≡◌, ◌⊎◌, Bool, ◌∷◌, ok, err, if◌then◌else◌, arith}
use shm_actors.Runtime.Wire.{Bytes, unknown_request_tag, unknown_response_tag, invalid_utf8}
use shm_actors.Runtime.Wire.Reads.{clip}
use shm_actors.Runtime.Protocol.{register, encode_request, decode_request, decode_response}
use shm_actors.Runtime.Protocol.RoundTrip.{str_body, request-tag, response-tag, made-clipped}

module _ (is_utf8 : Bytes → Bool) where
  -- A body whose first byte is none of the tags 1 to 14 is refused, whatever follows.
  pub request_tag_unknown :
      (tag : ℕ) (rest : Bytes)
      → (tag ≡ 0) ⊎ (14 < tag)
      → decode_request is_utf8 (tag ∷ rest) ≡ err unknown_request_tag
  request_tag_unknown tag rest h = rw (request-tag is_utf8 tag rest) (ground arith)

  -- A body whose first byte is none of the tags 128 to 138 is refused, whatever follows.
  pub response_tag_unknown :
      (tag : ℕ) (rest : Bytes)
      → (tag < 128) ⊎ (138 < tag)
      → decode_response is_utf8 (tag ∷ rest) ≡ err unknown_response_tag
  response_tag_unknown tag rest h = rw (response-tag is_utf8 tag rest) (ground arith)

  -- A name of any length is sent as its first 65535 bytes at most: the receiver registers those,
  -- or refuses the message if the cut falls within a character.
  pub register_clipped :
      (name : Bytes)
      → decode_request is_utf8 (encode_request (register name))
        ≡ (if is_utf8 (clip name) then ok (register (clip name)) else err invalid_utf8)
  unfolding encode_request
  register_clipped name =
      rw (str_body 1 name, request-tag is_utf8 1, made-clipped is_utf8 1 register name)
