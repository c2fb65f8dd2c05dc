-- ===== src/Websocket.antt =====
-- internal/websocketx/websocketx.go: the frames of a tunnel connection. A byte is a number below 256,
-- and a connection's input is the list of the bytes that arrive until its end. Where the code masks
-- or joins bits that cannot overlap, `&`, `|` and the shifts are `%`, `+`, `*` and `/`.
pub mod Bytes
pub mod RoundTrip
pub mod Hostile
pub mod Tests
use Prim.Native.Nat.{bit_xor}
use traefik_connect.Common.{
  ◌>>=◌, ℕ, zero, suc, ◌+◌, ◌*◌, ◌/◌, ◌%◌, ◌^◌, String, Bool, true, false, List, [], ◌∷◌, ◌++◌,
  Option, none, some, if◌then◌else◌, ltb, leb, eqb, length, Result, ok, err,
}

abbrev pub Bytes : Type 0
Bytes = List ℕ

pub record Frame : Type 0 where
  pub opcode : ℕ
  pub payload : Bytes

-- The opcodes of WriteText, WriteBinary and WriteClose.
abbrev pub op_text : ℕ
op_text = 0x1

abbrev pub op_binary : ℕ
op_binary = 0x2

abbrev pub op_close : ℕ
op_close = 0x8

abbrev pub get_or : Bytes → ℕ → ℕ → ℕ
get_or [] i d = d
get_or (x ∷ xs) zero d = x
get_or (x ∷ xs) (suc i) d = get_or xs i d

-- payload[i] ^= maskKey[i%4], from the index `i` on
pub xor_from : Bytes → ℕ → Bytes → Bytes
xor_from key i [] = []
xor_from key i (b ∷ bs) = bit_xor b (get_or key (i % 4) 0) ∷ xor_from key (i + 1) bs

-- The last `k` bytes of `n`, the most significant first.
pub big_endian : ℕ → ℕ → Bytes
big_endian zero n = []
big_endian (suc k) n = (n / 256 ^ k) % 256 ∷ big_endian k n

-- The length bytes of writeFrame; `flag` is 0x80 on a masking connection and 0 otherwise.
pub length_bytes : ℕ → ℕ → Bytes
length_bytes flag n =
    if ltb n 126
    then (flag + n) ∷ []
    else if leb n 0xffff
    then (flag + 126) ∷ big_endian 2 n
    else (flag + 127) ∷ big_endian 8 n

-- writeFrame, as the bytes that are flushed. `key` is what rand.Read yields, or its error.
pub write_frame : Bool → Result Bytes → Frame → Result Bytes
write_frame true (err e) f = err e
write_frame true (ok key) f = ok (
    (0x80 + f.opcode % 16) ∷ length_bytes 0x80 (length f.payload)
    ++ (key ++ xor_from key 0 f.payload))
write_frame false key f =
    ok ((0x80 + f.opcode % 16) ∷ length_bytes 0 (length f.payload) ++ f.payload)

abbrev pub cons_taken : ℕ → Option (Bytes × Bytes) → Option (Bytes × Bytes)
cons_taken b none = none
cons_taken b (some (taken, rest)) = some (b ∷ taken, rest)

-- The first `n` bytes and the rest, where there are so many.
pub take_full : ℕ → Bytes → Option (Bytes × Bytes)
take_full zero bs = some ([], bs)
take_full (suc n) [] = none
take_full (suc n) (b ∷ bs) = cons_taken b (take_full n bs)

abbrev pub short_read : Bytes → String
short_read [] = "EOF"
short_read (b ∷ bs) = "unexpected EOF"

abbrev pub or_short : Bytes → Option (Bytes × Bytes) → Result (Bytes × Bytes)
or_short bs none = err (short_read bs)
or_short bs (some got) = ok got

-- io.ReadFull of `n` bytes, with the rest of the input
pub read_full : ℕ → Bytes → Result (Bytes × Bytes)
read_full n bs = or_short bs (take_full n bs)

-- length = (length << 8) | int64(b), as a pattern of 64 bits
abbrev pub shift_in : ℕ → ℕ → ℕ
shift_in acc b = acc * 256 % 2 ^ 64 + b

pub join_bytes : ℕ → Bytes → ℕ
join_bytes acc [] = acc
join_bytes acc (b ∷ bs) = join_bytes (shift_in acc b) bs

abbrev pub joined : Result (Bytes × Bytes) → Result (ℕ × Bytes)
joined r = do (ext, rest) ← r; ok (join_bytes 0 ext, rest)

-- The payload's length, as a pattern of 64 bits, and the rest of the input.
pub read_length : ℕ → Bytes → Result (ℕ × Bytes)
read_length n bs =
    if eqb n 126
    then joined (read_full 2 bs)
    else if eqb n 127
    then joined (read_full 8 bs)
    else ok (n, bs)

pub read_key : Bool → Bytes → Result (Bytes × Bytes)
read_key true bs = read_full 4 bs
read_key false bs = ok (0 ∷ 0 ∷ 0 ∷ 0 ∷ [], bs)

pub data Read : Type 0 where
  frame : Frame → Bytes → Read
  failed : String → Read
  panicked : Read

-- The most bytes that `make` allocates on a 64-bit machine; beyond, or below 0, it panics.
abbrev pub max_alloc : ℕ
max_alloc = 2 ^ 48

abbrev pub unmask : Bool → Bytes → Bytes → Bytes
unmask true key payload = xor_from key 0 payload
unmask false key payload = payload

abbrev pub with_payload : ℕ → Bool → Bytes → Result (Bytes × Bytes) → Read
with_payload opcode masked key (err e) = failed e
with_payload opcode masked key (ok (payload, rest)) =
    frame (record { opcode = opcode; payload = unmask masked key payload }) rest

-- make([]byte, length), and the payload
pub read_payload : ℕ → Bool → ℕ → Bytes → Bytes → Read
read_payload opcode masked n key bs =
    if ltb max_alloc n then panicked else with_payload opcode masked key (read_full n bs)

abbrev pub with_key : ℕ → Bool → ℕ → Result (Bytes × Bytes) → Read
with_key opcode masked n (err e) = failed e
with_key opcode masked n (ok (key, rest)) = read_payload opcode masked n key rest

abbrev pub with_length : ℕ → Bool → Result (ℕ × Bytes) → Read
with_length opcode masked (err e) = failed e
with_length opcode masked (ok (n, bs)) = with_key opcode masked n (read_key masked bs)

-- ReadFrame. The flags of the first byte other than the opcode are ignored.
pub read_frame : Bytes → Read
read_frame [] = failed "EOF"
read_frame (h ∷ []) = failed "unexpected EOF"
read_frame (h ∷ g ∷ bs) = with_length (h % 16) (leb 0x80 g) (read_length (g % 128) bs)
