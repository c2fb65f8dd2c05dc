-- ===== src/Websocket/Hostile.antt =====
-- What ReadFrame does on any input, also on one that no writeFrame has sent.
use traefik_connect.Common.{
  ℕ, zero, suc, ◌+◌, ◌%◌, ◌^◌, ◌≤◌, ◌<◌, ◌≡◌, refl, ap, Bool, true, false, [], ◌∷◌, ◌++◌, arith,
  length, ok, err, Result, ltb, leb, eqb, Option, none, some, ok-injective, Bool-cases,
  Option-cases, length-append, sym, ◌∙◌, inl, inr,
}
use traefik_connect.Websocket.{
  Bytes, cons_taken, or_short, Frame, frame, panicked, big_endian, take_full, read_full,
  read_length, read_key, read_payload, read_frame, max_alloc, with_key, with_length, with_payload,
  unmask, joined,
}
use traefik_connect.Websocket.Bytes.{read_full-append, join-big_endian_8, length-xor_from}

length-big_endian_8 : (n : ℕ) → length (big_endian 8 n) ≡ 8
unfolding big_endian
length-big_endian_8 n = refl

-- The second byte of a frame with an eight-byte length, and the length of its key.
abbrev pub long_byte : Bool → ℕ
long_byte true = 255
long_byte false = 127

abbrev pub key_length : Bool → ℕ
key_length true = 4
key_length false = 0

-- An eight-byte length above what make can allocate, such as a negative one, makes ReadFrame panic, as
-- soon as the key has arrived that a masked frame has behind it, whatever the first byte and whatever
-- follows.
pub read_frame-panicked :
    (masked : Bool) (h n : ℕ) (key rest : Bytes)
    → max_alloc < n
    → n < 2 ^ 64
    → length key ≡ key_length masked
    → read_frame (h ∷ long_byte masked ∷ big_endian 8 n ++ (key ++ rest)) ≡ panicked
unfolding read_frame read_length read_key read_payload
read_frame-panicked true h n key rest big fits size =
    rw
      (
        read_full-append 8 (big_endian 8 n) (key ++ rest) (length-big_endian_8 n),
        join-big_endian_8 n fits,
        read_full-append 4 key rest size,
      )
      (ground arith)
read_frame-panicked false h n key rest big fits size =
    rw
      (
        read_full-append 8 (big_endian 8 n) (key ++ rest) (length-big_endian_8 n),
        join-big_endian_8 n fits,
      )
      (ground arith)

cons_taken-eq-some :
    (b : ℕ) (o : Option (Bytes × Bytes)) (taken rest : Bytes)
    → cons_taken b o ≡ some (taken, rest)
    → (t : Bytes) × (o ≡ some (t, rest)) × (taken ≡ b ∷ t)
cons_taken-eq-some b none taken rest e = cc
cons_taken-eq-some b (some (t, r)) taken rest e = (t, ground arith, ground arith)

take_full-eq-some :
    (n : ℕ) (bs taken rest : Bytes)
    → take_full n bs ≡ some (taken, rest)
    → (length taken ≡ n) × (bs ≡ taken ++ rest)
unfolding take_full
take_full-eq-some zero bs taken rest e = ground arith
take_full-eq-some (suc n) [] taken rest e = cc
take_full-eq-some (suc n) (b ∷ bs) taken rest e =
    let (t, found, same) = cons_taken-eq-some b (take_full n bs) taken rest e in
    let (size, parts) = take_full-eq-some n bs t rest found in rw (same, parts) (ap suc size, refl)

-- What io.ReadFull returns is the beginning of the input, of the length asked for.
pub read_full-eq-ok :
    (n : ℕ) (bs taken rest : Bytes)
    → read_full n bs ≡ ok (taken, rest)
    → (length taken ≡ n) × (bs ≡ taken ++ rest)
unfolding read_full
read_full-eq-ok n bs taken rest e = elim (Option-cases (take_full n bs)) [
  | inl short ↦ cc (ap (or_short bs) short)
  | inr (got, found) ↦
      take_full-eq-some n bs taken rest
        (found ∙ ap some (ok-injective (sym (ap (or_short bs) found) ∙ e)))
]

-- What a received frame has used of its input, from the payload back to the first byte.
length_of_read_full :
    (n : ℕ) (bs taken rest : Bytes)
    → read_full n bs ≡ ok (taken, rest)
    → length bs ≡ n + length rest
length_of_read_full n bs taken rest e =
    let (size, parts) = read_full-eq-ok n bs taken rest e in
    rw parts (omega (arith, length-append {0} taken rest))

length-unmask : (m : Bool) (key bs : Bytes) → length (unmask m key bs) ≡ length bs
length-unmask true key bs = length-xor_from key 0 bs
length-unmask false key bs = refl

record IsWithin (op : ℕ) (bs : Bytes) (f : Frame) (rest : Bytes) : Type 0 where
  opcode : f.opcode ≡ op
  size : length f.payload ≤ max_alloc
  used : length f.payload + length rest ≤ length bs

with_payload-eq-frame :
    (op n : ℕ) (m : Bool) (key bs : Bytes) (r : Result (Bytes × Bytes)) (f : Frame) (rest : Bytes)
    → n ≤ max_alloc
    → read_full n bs ≡ r
    → with_payload op m key r ≡ frame f rest
    → IsWithin op bs f rest
with_payload-eq-frame op n m key bs (err x) f rest h q e = cc
with_payload-eq-frame op n m key bs (ok (taken, rest')) f rest h q e = ground (
  arith,
  length_of_read_full n bs taken rest' q,
  read_full-eq-ok n bs taken rest' q,
  length-unmask m key taken,
)

read_payload-IsWithin :
    (op n : ℕ) (m : Bool) (key bs : Bytes) (f : Frame) (rest : Bytes)
    → read_payload op m n key bs ≡ frame f rest
    → IsWithin op bs f rest
unfolding read_payload
read_payload-IsWithin op n m key bs f rest e = elim (Bool-cases (ltb max_alloc n)) [
  | inl big ↦ cc (big, e)
  | inr fits ↦
      with_payload-eq-frame op n m key bs (read_full n bs) f rest (ground arith) refl (rw fits at e)
]

read_key-length :
    (m : Bool) (bs key rest : Bytes) → read_key m bs ≡ ok (key, rest) → length rest ≤ length bs
unfolding read_key
read_key-length true bs key rest e = omega (arith, length_of_read_full 4 bs key rest e)
read_key-length false bs key rest e = ground arith

with_key-IsWithin :
    (op n : ℕ) (m : Bool) (bs : Bytes) (r : Result (Bytes × Bytes)) (f : Frame) (rest : Bytes)
    → read_key m bs ≡ r
    → with_key op m n r ≡ frame f rest
    → IsWithin op bs f rest
with_key-IsWithin op n m bs (err x) f rest q e = cc
with_key-IsWithin op n m bs (ok (key, bs')) f rest q e =
    let w = read_payload-IsWithin op n m key bs' f rest e in
    omega (arith, read_key-length m bs key bs' q)

joined-length :
    (k : ℕ) (bs : Bytes) (r : Result (Bytes × Bytes)) (n : ℕ) (rest : Bytes)
    → read_full k bs ≡ r
    → joined r ≡ ok (n, rest)
    → length rest ≤ length bs
joined-length k bs (err x) n rest q e = cc
joined-length k bs (ok (ext, rest')) n rest q e =
    ground (arith, length_of_read_full k bs ext rest' q)

read_length-length :
    (g : ℕ) (bs : Bytes) (n : ℕ) (rest : Bytes)
    → read_length g bs ≡ ok (n, rest)
    → length rest ≤ length bs
unfolding read_length
read_length-length g bs n rest e = elim (Bool-cases (eqb g 126)) [
  | inl two ↦ joined-length 2 bs (read_full 2 bs) n rest refl (rw two at e)
  | inr more ↦ elim (Bool-cases (eqb g 127)) [
    | inl eight ↦ joined-length 8 bs (read_full 8 bs) n rest refl (rw (more, eight) at e)
    | inr short ↦ ground arith
  ]
]

with_length-IsWithin :
    (op g : ℕ) (m : Bool) (bs : Bytes) (r : Result (ℕ × Bytes)) (f : Frame) (rest : Bytes)
    → read_length g bs ≡ r
    → with_length op m r ≡ frame f rest
    → IsWithin op bs f rest
with_length-IsWithin op g m bs (err x) f rest q e = cc
with_length-IsWithin op g m bs (ok (n, bs')) f rest q e =
    let w = with_key-IsWithin op n m bs' (read_key m bs') f rest refl e in
    omega (arith, read_length-length g bs n bs' q)

-- A frame that ReadFrame returns has an opcode of four bits and a payload that make can allocate,
-- and it has used two bytes of the input at least beside its payload: reading goes on.
pub read_frame-progress :
    (bs : Bytes) (f : Frame) (rest : Bytes)
    → read_frame bs ≡ frame f rest
    → (f.opcode < 16)
      × (length f.payload ≤ max_alloc)
      × (2 + length f.payload + length rest ≤ length bs)
unfolding read_frame
read_frame-progress [] f rest e = cc
read_frame-progress (h ∷ []) f rest e = cc
read_frame-progress (h ∷ g ∷ bs) f rest e =
    let w =
      with_length-IsWithin (h % 16) (g % 128) (leb 0x80 g) bs (read_length (g % 128) bs) f rest refl
        e in
    omega arith
