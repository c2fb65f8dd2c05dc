-- ===== src/Websocket/RoundTrip.antt =====
-- A frame that writeFrame sends is the frame that ReadFrame receives.
use traefik_connect.Common.{
  ℕ, ◌+◌, ◌%◌, ◌≤◌, ◌<◌, ◌≡◌, refl, true, false, [], ◌∷◌, ◌++◌, arith, append_assoc, length, ok,
  Result, Bool-cases, ltb, leb, ok-injective, inl, inr,
}
use traefik_connect.Websocket.{
  Bytes, Frame, frame, xor_from, big_endian, length_bytes, write_frame, read_length, read_key,
  read_payload, read_frame, max_alloc,
}
use traefik_connect.Websocket.Bytes.{
  IsBytes, xor_from_twice, length-xor_from, read_full-append, join-big_endian_2, join-big_endian_8,
}

-- A frame that the protocol can carry: four bits of opcode, bytes, and a length that can be allocated.
pub record IsSendable (f : Frame) : Type 0 where
  pub opcode : f.opcode < 16
  pub payload : IsBytes f.payload
  pub size : length f.payload ≤ max_alloc

length-big_endian_2 : (n : ℕ) → length (big_endian 2 n) ≡ 2
unfolding big_endian
length-big_endian_2 n = refl

length-big_endian_8 : (n : ℕ) → length (big_endian 8 n) ≡ 8
unfolding big_endian
length-big_endian_8 n = refl

-- The first length byte holds seven bits, and with the others it gives the length back.
abbrev Carries : ℕ → ℕ → Bytes → Type 0
Carries flag n rest =
    (g : ℕ) × (ext : Bytes) × (length_bytes flag n ≡ (flag + g) ∷ ext)
    × (g < 128)
    × (read_length g (ext ++ rest) ≡ ok (n, rest))

length_bytes-read_length : (flag n : ℕ) (rest : Bytes) → n ≤ max_alloc → Carries flag n rest
unfolding length_bytes read_length
length_bytes-read_length flag n rest h = elim (Bool-cases (ltb n 126)) [
  | inl small ↦ (n, [], rw small, ground arith, ground arith)
  | inr large ↦ elim (Bool-cases (leb n 0xffff)) [
    | inl two ↦ (
      126,
      big_endian 2 n,
      rw (large, two),
      omega arith,
      rw (
        read_full-append 2 (big_endian 2 n) rest (length-big_endian_2 n),
        join-big_endian_2 n (ground arith),
      ),
    )
    | inr eight ↦ (
      127,
      big_endian 8 n,
      rw (large, eight),
      omega arith,
      rw (
        read_full-append 8 (big_endian 8 n) rest (length-big_endian_8 n),
        join-big_endian_8 n (omega arith),
      ),
    )
  ]
]

-- Within the limit, make does not panic, and the payload is what the input begins with.
read_payload-append :
    (opcode : ℕ) (key payload rest : Bytes)
    → length payload ≤ max_alloc
    → read_payload opcode false (length payload) key (payload ++ rest)
      ≡ frame (record { opcode = opcode; payload = payload }) rest
unfolding read_payload
read_payload-append opcode key payload rest h =
    rw (read_full-append (length payload) payload rest refl) (ground arith)

read_payload-append_masked :
    (opcode : ℕ) (key payload rest : Bytes)
    → IsBytes key
    → IsBytes payload
    → length payload ≤ max_alloc
    → read_payload opcode true (length payload) key (xor_from key 0 payload ++ rest)
      ≡ frame (record { opcode = opcode; payload = payload }) rest
unfolding read_payload
read_payload-append_masked opcode key payload rest k b h =
    rw
      (
        read_full-append (length payload) (xor_from key 0 payload) rest
            (length-xor_from key 0 payload),
        xor_from_twice key 0 payload k b,
      )
      (ground arith)

-- The first two bytes give back the opcode, the mask flag and seven bits of length.
first_byte : (op : ℕ) → op < 16 → (0x80 + op % 16) % 16 ≡ op
first_byte op h = omega arith

read_plain :
    (f : Frame) (rest : Bytes)
    → IsSendable f
    → read_frame (((0x80 + f.opcode % 16) ∷ length_bytes 0 (length f.payload) ++ f.payload) ++ rest)
      ≡ frame f rest
unfolding read_frame read_key
read_plain f rest s =
    let (g, ext, head, low, back) =
      length_bytes-read_length 0 (length f.payload) (f.payload ++ rest) s.size in
    let bits : (0 + g) % 128 ≡ g = omega arith in
    let clear : leb 0x80 (0 + g) ≡ false = ground arith in
    rw (head, append_assoc ext f.payload rest, first_byte f.opcode s.opcode, bits, clear, back)
      (read_payload-append f.opcode _ f.payload rest s.size)

read_masked :
    (key : Bytes) (f : Frame) (rest : Bytes)
    → IsSendable f
    → IsBytes key
    → length key ≡ 4
    → read_frame (
        ((0x80 + f.opcode % 16) ∷ length_bytes 0x80 (length f.payload)
          ++ (key ++ xor_from key 0 f.payload))
        ++ rest)
      ≡ frame f rest
unfolding read_frame read_key
read_masked key f rest s k four =
    let body = xor_from key 0 f.payload in
    let (g, ext, head, low, back) =
      length_bytes-read_length 0x80 (length f.payload) (key ++ (body ++ rest)) s.size in
    let bits : (0x80 + g) % 128 ≡ g = omega arith in
    let flag : leb 0x80 (0x80 + g) ≡ true = ground arith in
    rw
      (
        head,
        append_assoc ext (key ++ body) rest,
        append_assoc key body rest,
        first_byte f.opcode s.opcode,
        bits,
        flag,
        back,
        read_full-append 4 key (body ++ rest) four,
      )
      (read_payload-append_masked f.opcode key f.payload rest k s.payload s.size)

-- What a side that does not mask sends, with anything behind it, is read as that frame and that
-- rest.
read_frame-write_frame :
    (key : Result Bytes) (f : Frame) (bytes rest : Bytes)
    → IsSendable f
    → write_frame false key f ≡ ok bytes
    → read_frame (bytes ++ rest) ≡ frame f rest
unfolding write_frame
read_frame-write_frame key f bytes rest s e = rw (← (ok-injective e)) (read_plain f rest s)

-- What a masking side sends, whatever the four bytes of its key and with anything behind it, is read
-- as the frame that was sent, unmasked, and what stands behind it is left.
pub read_frame-write_frame_masked :
    (key : Bytes) (f : Frame) (bytes rest : Bytes)
    → IsSendable f
    → IsBytes key
    → length key ≡ 4
    → write_frame true (ok key) f ≡ ok bytes
    → read_frame (bytes ++ rest) ≡ frame f rest
unfolding write_frame
read_frame-write_frame_masked key f bytes rest s k four e =
    rw (← (ok-injective e)) (read_masked key f rest s k four)
