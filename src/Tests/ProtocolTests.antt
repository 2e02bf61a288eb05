-- ===== src/Tests/ProtocolTests.antt =====
-- Frames of the control protocol.
use shm_actors.Prelude.{◌≡◌, refl, Bool, true, [], ◌∷◌, ok, arith, ltb, ◌&&◌}
use shm_actors.Runtime.Wire.Reads.{clip}
use shm_actors.Runtime.Wire.{Bytes}
use shm_actors.Runtime.Protocol.{
  register, store_granted, encode_request, decode_request, encode_response, decode_response,
}
use shm_actors.Runtime.Protocol.RoundTrip.{decode-encode_request, decode-encode_response}
use shm_actors.Runtime.Protocol.Refusals.{register_clipped}

-- ASCII is UTF-8.
all_ascii : Bytes → Bool
all_ascii [] = true
all_ascii (b ∷ bs) = ltb b 128 && all_ascii bs

-- "x"
decode-encode_request_example :
    decode_request all_ascii (encode_request (register (120 ∷ []))) ≡ ok (register (120 ∷ []))
unfolding all_ascii
decode-encode_request_example =
    decode-encode_request all_ascii (register (120 ∷ [])) (omega arith, refl)

decode-encode_response_example :
    decode_response all_ascii (encode_response (store_granted 8192 5208 8193 409600 8194 1048576))
    ≡ ok (store_granted 8192 5208 8193 409600 8194 1048576)
decode-encode_response_example =
    decode-encode_response all_ascii (store_granted 8192 5208 8193 409600 8194 1048576)
      (omega arith)

register_clipped_example :
    decode_request all_ascii (encode_request (register (120 ∷ []))) ≡ ok (register (120 ∷ []))
unfolding all_ascii clip
register_clipped_example = register_clipped all_ascii (120 ∷ [])
