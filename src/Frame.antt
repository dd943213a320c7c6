-- ===== src/Frame.antt =====
-- Length-prefixed messages between host and guest agent: writeFramedJSON and readFramedJSON of
-- src/infrastructure/vm/firecracker/exec_protocol.go. The JSON codec of the message type is a
-- parameter; a connection is what a write makes of it, a stream is the bytes up to its end.
pub mod RoundTrip
pub mod Broken
use spacetrek.Prelude.{
  ℕ, zero, suc, ◌+◌, ◌*◌, ◌/◌, ◌%◌, Bool, true, false, List, [], ◌∷◌, ◌++◌, Option, none, some, ltb,
  ◌==◌, if◌then◌else◌, Text, length, take, drop, ℤ, pos, negsuc, is_empty,
}

abbrev pub frame_header_size : ℕ
frame_header_size = 4

pub data FrameError : Type 0 where
  marshal_failed empty_payload write_header_failed write_payload_failed : FrameError
  payload_too_large : ℕ → FrameError
  read_header_failed read_payload_failed unmarshal_failed : FrameError
  invalid_size : ℕ → FrameError

pub data Result {ℓ} (A : Type ℓ) : Type ℓ where
  ok : A → Result A
  err : FrameError → Result A

-- `max > 0 && size > max`
unfoldable pub exceeds : ℤ → ℕ → Bool
exceeds (pos zero) size = false
exceeds (pos (suc m)) size = ltb (suc m) size
exceeds (negsuc m) size = false

-- `binary.BigEndian.PutUint32(header, uint32(n))`
unfoldable pub put_uint32 : ℕ → Text
put_uint32 n = n / 16777216 % 256 ∷ n / 65536 % 256 ∷ n / 256 % 256 ∷ n % 256 ∷ []

-- `binary.BigEndian.Uint32(header)`, of a header of four bytes.
unfoldable pub get_uint32 : Text → ℕ
get_uint32 (a ∷ b ∷ c ∷ d ∷ []) = ((a * 256 + b) * 256 + c) * 256 + d
get_uint32 _ = 0

-- `io.ReadFull` into a buffer of `n` bytes: the bytes and the rest of the stream.
unfoldable pub read_full : ℕ → Text → Option (Text × Text)
read_full n stream = if ltb (length stream) n then none else some (take n stream, drop n stream)

module _ {V W : Type 0} where
  unfoldable pub write_framed_json :
      (V → Option Text) → (W → Text → Option W) → W → V → ℤ → Result W
  write_framed_json marshal write conn value max = elim (marshal value) [
    | none ↦ err marshal_failed
    | some payload ↦
        if is_empty payload
        then err empty_payload
        else if exceeds max (length payload)
        then err (payload_too_large (length payload))
        else elim (write conn (put_uint32 (length payload))) [
          | none ↦ err write_header_failed
          | some conn' ↦ elim (write conn' payload) [
            | none ↦ err write_payload_failed
            | some conn'' ↦ ok conn''
          ]
        ]
  ]

module _ {V : Type 0} where
  -- The payload, once its size is known.
  unfoldable pub read_payload : (Text → Option V) → ℕ → Text → Result (V × Text)
  read_payload unmarshal size stream = elim (read_full size stream) [
    | none ↦ err read_payload_failed
    | some (payload, rest) ↦ elim (unmarshal payload) [
      | none ↦ err unmarshal_failed
      | some value ↦ ok (value, rest)
    ]
  ]

  -- The message, and the rest of the stream.
  unfoldable pub read_framed_json : (Text → Option V) → ℤ → Text → Result (V × Text)
  read_framed_json unmarshal max stream = elim (read_full frame_header_size stream) [
    | none ↦ err read_header_failed
    | some (header, rest) ↦
        let size = get_uint32 header in
        if size == 0
        then err (invalid_size size)
        else if exceeds max size
        then err (payload_too_large size)
        else read_payload unmarshal size rest
  ]
