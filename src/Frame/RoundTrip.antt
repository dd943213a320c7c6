-- ===== src/Frame/RoundTrip.antt =====
-- A message that is written is read back.
use spacetrek.Prelude.{
  ℕ, ◌<◌, ◌≡◌, refl, ap, ◌∙◌, inl, inr, false, [], ◌∷◌, ◌++◌, append_assoc, Option, some,
  Option-cases, ◌==◌, Text, length, take, drop, ℤ, is_empty, length-append, arith,
}
use spacetrek.Frame.{
  ok, exceeds, put_uint32, get_uint32, read_full, write_framed_json, read_payload, read_framed_json,
}

take_exact : (xs ys : Text) → take (length xs) (xs ++ ys) ≡ xs
take_exact [] ys = refl
take_exact (x ∷ xs) ys = ap (◌∷◌ x) (take_exact xs ys)

drop_exact : (xs ys : Text) → drop (length xs) (xs ++ ys) ≡ ys
drop_exact [] ys = refl
drop_exact (x ∷ xs) ys = drop_exact xs ys

pub read_full-append : (xs ys : Text) → read_full (length xs) (xs ++ ys) ≡ some (xs, ys)
unfolding read_full
read_full-append xs ys = ground (arith, take_exact xs ys, drop_exact xs ys, length-append xs ys)

pub get-put_uint32 : (n : ℕ) → n < 4294967296 → get_uint32 (put_uint32 n) ≡ n
unfolding get_uint32 put_uint32
get-put_uint32 n h = omega arith

pub header_read :
    (n : ℕ) (rest : Text) → read_full 4 (put_uint32 n ++ rest) ≡ some (put_uint32 n, rest)
unfolding put_uint32
header_read n rest = read_full-append (put_uint32 n) rest

pub size_pos : (payload : Text) → is_empty payload ≡ false → (length payload == 0) ≡ false
size_pos [] h = cc
size_pos (b ∷ bs) h = ground arith

-- A buffer that takes every write.
abbrev pub append_write : Text → Text → Option Text
append_write sent chunk = some (sent ++ chunk)

module _ {V : Type 0} (marshal : V → Option Text) (unmarshal : Text → Option V) where
  -- What a successful write to a buffer has put there.
  pub written :
      (sent sent' : Text) (value : V) (max : ℤ)
      → write_framed_json marshal append_write sent value max ≡ ok sent'
      → (payload : Text) × (marshal value ≡ some payload)
        × (sent' ≡ (sent ++ put_uint32 (length payload)) ++ payload)
        × (is_empty payload ≡ false)
        × (exceeds max (length payload) ≡ false)
  unfolding write_framed_json
  written sent sent' value max h = elim (Option-cases (marshal value)) [
    | inl e ↦ absurd (ground arith)
    | inr (payload, e) ↦ (payload, e, ground arith, ground arith, ground arith)
  ]

  pub read_frame :
      (payload rest : Text) (max : ℤ) (value : V)
      → length payload < 4294967296
      → is_empty payload ≡ false
      → exceeds max (length payload) ≡ false
      → unmarshal payload ≡ some value
      → read_framed_json unmarshal max (put_uint32 (length payload) ++ (payload ++ rest))
        ≡ ok (value, rest)
  unfolding read_framed_json read_payload
  read_frame payload rest max value small full fits back = ground (
    arith,
    header_read (length payload) (payload ++ rest),
    get-put_uint32 (length payload) small,
    read_full-append payload rest,
    size_pos payload full,
  )

  -- What is written to a buffer is read back from there, whatever follows it in the stream, and the
  -- rest of the stream is left: of a payload below 2^32 bytes, from a codec that reads back what it
  -- marshals, under the same limit on both sides.
  pub read-write :
      (sent sent' rest : Text) (value : V) (max : ℤ)
      → ((v : V) (payload : Text) → marshal v ≡ some payload → unmarshal payload ≡ some v)
      → ((payload : Text) → marshal value ≡ some payload → length payload < 4294967296)
      → write_framed_json marshal append_write sent value max ≡ ok sent'
      → (frame : Text) × (sent' ≡ sent ++ frame)
        × (read_framed_json unmarshal max (frame ++ rest) ≡ ok (value, rest))
  read-write sent sent' rest value max codec small h =
      let (payload, m, e, full, fits) = written sent sent' value max h in
      let frame : Text = put_uint32 (length payload) ++ payload in
      (
        frame,
        e ∙ append_assoc sent (put_uint32 (length payload)) payload,
        rw (append_assoc (put_uint32 (length payload)) payload rest)
            (read_frame payload rest max value (small payload m) full fits (codec value payload m)),
      )
