-- ===== src/Websocket/Tests.antt =====
-- Frames on examples.
use traefik_connect.Common.{
  ◌≡◌, refl, ◌+◌, ◌≤◌, ◌<◌, ◌^◌, false, true, [], ◌∷◌, ◌++◌, length, ok, err, arith,
}
use traefik_connect.Websocket.{
  Bytes, Frame, frame, panicked, op_text, max_alloc, big_endian, xor_from, write_frame, read_frame,
  read_length, read_full, take_full, length_bytes, read_key, read_payload,
}
use traefik_connect.Websocket.Bytes.{IsBytes}
use traefik_connect.Websocket.RoundTrip.{IsSendable, read_frame-write_frame_masked}
use traefik_connect.Websocket.Hostile.{read_frame-panicked, read_frame-progress}

abbrev hi : Frame
hi = record { opcode = op_text; payload = 72 ∷ 105 ∷ [] }

abbrev mask : Bytes
mask = 1 ∷ 2 ∷ 3 ∷ 4 ∷ []

hi-IsSendable : IsSendable hi
hi-IsSendable = record {
  opcode = omega arith;
  payload = (omega arith, (omega arith, tt));
  size = omega arith;
}

mask-IsBytes : IsBytes mask
mask-IsBytes = (omega arith, (omega arith, (omega arith, (omega arith, tt))))

plain : write_frame false (err "no key") hi ≡ ok (0x81 ∷ 2 ∷ 72 ∷ 105 ∷ [])
unfolding write_frame length_bytes
plain = refl

masked : write_frame true (ok mask) hi ≡ ok (0x81 ∷ 0x82 ∷ 1 ∷ 2 ∷ 3 ∷ 4 ∷ 73 ∷ 107 ∷ [])
unfolding write_frame length_bytes xor_from
masked = refl

read_frame-write_frame_masked_example :
    read_frame ((0x81 ∷ 0x82 ∷ 1 ∷ 2 ∷ 3 ∷ 4 ∷ 73 ∷ 107 ∷ []) ++ 0x88 ∷ []) ≡ frame hi (0x88 ∷ [])
read_frame-write_frame_masked_example =
    read_frame-write_frame_masked mask hi (0x81 ∷ 0x82 ∷ 1 ∷ 2 ∷ 3 ∷ 4 ∷ 73 ∷ 107 ∷ []) (0x88 ∷ [])
      hi-IsSendable mask-IsBytes refl masked

read_frame-panicked_example :
    read_frame (0x82 ∷ 255 ∷ big_endian 8 (2 ^ 63) ++ (mask ++ [])) ≡ panicked
read_frame-panicked_example =
    read_frame-panicked true 0x82 (2 ^ 63) mask [] (omega arith) (omega arith) refl

read_hi : read_frame (0x81 ∷ 2 ∷ 72 ∷ 105 ∷ 0x88 ∷ []) ≡ frame hi (0x88 ∷ [])
unfolding read_frame read_length read_full take_full read_key read_payload
read_hi = refl

read_frame-progress_example :
    (hi.opcode < 16) × (length hi.payload ≤ max_alloc) × (2 + length hi.payload + 1 ≤ 5)
read_frame-progress_example =
    read_frame-progress (0x81 ∷ 2 ∷ 72 ∷ 105 ∷ 0x88 ∷ []) hi (0x88 ∷ []) read_hi
