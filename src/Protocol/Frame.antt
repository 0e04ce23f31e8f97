-- ===== src/Protocol/Frame.antt =====
-- The stream frames of internal/runnerproto/message.go: four bytes of the stream's number, the
-- highest first, and then the data.
use network_skill_lab.Prelude.{
  All, Result, [], ap, arith, err, ok, ℕ, ◌%◌, ◌*◌, ◌++◌, ◌+◌, ◌/◌, ◌<◌, ◌^◌, ◌∷◌, ◌≡◌,
}
use network_skill_lab.Content.Lab.{Bytes}

-- `binary.BigEndian.PutUint32`
abbrev pub put_uint32 : ℕ → Bytes
put_uint32 v = v / 2 ^ 24 % 256 ∷ v / 2 ^ 16 % 256 ∷ v / 2 ^ 8 % 256 ∷ v % 256 ∷ []

-- `binary.BigEndian.Uint32` of four bytes.
abbrev pub uint32 : ℕ → ℕ → ℕ → ℕ → ℕ
uint32 a b c d = a * 2 ^ 24 + b * 2 ^ 16 + c * 2 ^ 8 + d

-- `ErrShortFrame`
pub data FrameError : Type 0 where
  short_frame : FrameError

unfoldable pub encode_stream_frame : ℕ → Bytes → Bytes
encode_stream_frame id bytes = put_uint32 id ++ bytes

unfoldable pub decode_stream_frame : Bytes → Result FrameError (ℕ × Bytes)
decode_stream_frame (a ∷ b ∷ c ∷ d ∷ bytes) = ok (uint32 a b c d, bytes)
decode_stream_frame _ = err short_frame

uint32-put_uint32 :
    (v : ℕ)
    → v < 2 ^ 32
    → uint32 (v / 2 ^ 24 % 256) (v / 2 ^ 16 % 256) (v / 2 ^ 8 % 256) (v % 256) ≡ v
uint32-put_uint32 v h = omega arith

-- A frame is decoded to the stream, a number below 2 ^ 32, and the data that it was made of.
pub decode-encode :
    (id : ℕ) (bytes : Bytes)
    → id < 2 ^ 32
    → decode_stream_frame (encode_stream_frame id bytes) ≡ ok (id, bytes)
unfolding decode_stream_frame encode_stream_frame
decode-encode id bytes h = ap (λ v. ok (v, bytes)) (uint32-put_uint32 id h)

abbrev pub IsByte : ℕ → Type 0
IsByte b = b < 256

put_uint32-uint32 :
    (a b c d : ℕ)
    → a < 256
    → b < 256
    → c < 256
    → d < 256
    → put_uint32 (uint32 a b c d) ≡ a ∷ b ∷ c ∷ d ∷ []
put_uint32-uint32 a b c d ha hb hc hd =
    let top : (a * 2 ^ 24 + b * 2 ^ 16 + c * 2 ^ 8 + d) / 2 ^ 24 % 256 ≡ a = omega arith in
    let second_byte : (a * 2 ^ 24 + b * 2 ^ 16 + c * 2 ^ 8 + d) / 2 ^ 16 % 256 ≡ b = omega arith in
    let third : (a * 2 ^ 24 + b * 2 ^ 16 + c * 2 ^ 8 + d) / 2 ^ 8 % 256 ≡ c = omega arith in
    let last : (a * 2 ^ 24 + b * 2 ^ 16 + c * 2 ^ 8 + d) % 256 ≡ d = omega arith in
    rw (top, second_byte, third, last)

-- What is decoded from a frame of bytes is the stream and the data of that frame alone, and the
-- stream is below 2 ^ 32.
pub encode-decode :
    (frame : Bytes) (id : ℕ) (bytes : Bytes)
    → All IsByte frame
    → decode_stream_frame frame ≡ ok (id, bytes)
    → (encode_stream_frame id bytes ≡ frame) × (id < 2 ^ 32)
unfolding decode_stream_frame encode_stream_frame
encode-decode [] id bytes small h = absurd (cc)
encode-decode (a ∷ []) id bytes small h = absurd (cc)
encode-decode (a ∷ b ∷ []) id bytes small h = absurd (cc)
encode-decode (a ∷ b ∷ c ∷ []) id bytes small h = absurd (cc)
encode-decode (a ∷ b ∷ c ∷ d ∷ rest) id bytes (ha, (hb, (hc, (hd, _)))) h =
    let number : uint32 a b c d ≡ id = cc in
    let same : rest ≡ bytes = cc in
    rw (← number, ← same)
      (ap (λ head. head ++ rest) (put_uint32-uint32 a b c d ha hb hc hd), omega arith)
