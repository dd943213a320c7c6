-- ===== src/Frame/Broken.antt =====
-- What a reader makes of a stream that it did not expect, or that ends early.
use spacetrek.Prelude.{
  ℕ, suc, ◌+◌, ◌<◌, ◌≡◌, refl, inl, inr, false, ◌++◌, Option, none, some, Option-cases, Bool-cases,
  ltb, if◌then◌else◌, Text, length, take, ℤ, is_empty, length-append, length-take, take-append-drop,
  arith,
}
use spacetrek.Frame.{
  ok, err, exceeds, put_uint32, get_uint32, read_full, read_payload, read_framed_json,
  read_header_failed, read_payload_failed,
}
use spacetrek.Frame.RoundTrip.{get-put_uint32, header_read, size_pos}

read_full-some :
    (n : ℕ) (stream part rest : Text)
    → read_full n stream ≡ some (part, rest)
    → (stream ≡ part ++ rest) × (length part ≡ n)
unfolding read_full
read_full-some n stream part rest h = elim (Bool-cases (ltb (length stream) n)) [
  | inl short ↦ absurd (ground arith)
  | inr long ↦ (ground (arith, take-append-drop n stream), ground (arith, length-take n stream))
]

read_full_short : (n : ℕ) (stream : Text) → length stream < n → read_full n stream ≡ none
unfolding read_full
read_full_short n stream h = ground arith

take_header :
    (k m : ℕ) (payload : Text)
    → take (suc (suc (suc (suc m)))) (put_uint32 k ++ payload) ≡ put_uint32 k ++ take m payload
unfolding put_uint32
take_header k m payload = refl

length-put_uint32 : (k : ℕ) → length (put_uint32 k) ≡ 4
unfolding put_uint32
length-put_uint32 k = refl

module _ {V : Type 0} (unmarshal : Text → Option V) (max : ℤ) where
  read_payload-ok :
      (size : ℕ) (stream rest : Text) (value : V)
      → read_payload unmarshal size stream ≡ ok (value, rest)
      → (payload : Text) × (stream ≡ payload ++ rest)
        × (length payload ≡ size)
        × (unmarshal payload ≡ some value)
  unfolding read_payload
  read_payload-ok size stream rest value h = elim (Option-cases (read_full size stream)) [
    | inl e ↦ absurd (ground arith)
    | inr ((payload, rest'), e) ↦ elim (Option-cases (unmarshal payload)) [
      | inl f ↦ absurd (ground arith)
      | inr (v, f) ↦
          let same : rest' ≡ rest = ground arith in
          let parts = read_full-some size stream payload rest' e in
          (payload, ground (arith, parts), parts.1, ground arith)
    ]
  ]

  -- A read that succeeds has taken from the stream four bytes of header and exactly the payload that
  -- they announce, which is not empty and within the limit, and returns what the codec reads in it.
  pub read_framed_json-ok :
      (stream rest : Text) (value : V)
      → read_framed_json unmarshal max stream ≡ ok (value, rest)
      → (header payload : Text) × (stream ≡ header ++ (payload ++ rest))
        × (length header ≡ 4)
        × (length payload ≡ get_uint32 header)
        × (0 < length payload)
        × (exceeds max (length payload) ≡ false)
        × (unmarshal payload ≡ some value)
  unfolding read_framed_json
  read_framed_json-ok stream rest value h = elim (Option-cases (read_full 4 stream)) [
    | inl e ↦ absurd (ground arith)
    | inr ((header, after), e) ↦
        let parts = read_full-some 4 stream header after e in
        let (payload, p, q, r) =
          read_payload-ok (get_uint32 header) after rest value (ground arith) in
        (header, payload, ground (arith, parts), parts.1, q, ground arith, ground arith, r)
  ]

  cut_header :
      (stream : Text)
      → length stream < 4
      → read_framed_json unmarshal max stream ≡ err read_header_failed
  unfolding read_framed_json
  cut_header stream h = ground (arith, read_full_short 4 stream h)

  cut_payload :
      (payload part : Text)
      → length payload < 4294967296
      → is_empty payload ≡ false
      → exceeds max (length payload) ≡ false
      → length part < length payload
      → read_framed_json unmarshal max (put_uint32 (length payload) ++ part)
        ≡ err read_payload_failed
  unfolding read_framed_json read_payload
  cut_payload payload part small full fits cut = ground (
    arith,
    header_read (length payload) part,
    get-put_uint32 (length payload) small,
    size_pos payload full,
    read_full_short (length payload) part cut,
  )

  -- A frame that ends early is refused: without a whole header as such, else for its payload.
  pub read_cut_frame :
      (payload : Text) (n : ℕ)
      → length payload < 4294967296
      → is_empty payload ≡ false
      → exceeds max (length payload) ≡ false
      → n < 4 + length payload
      → read_framed_json unmarshal max (take n (put_uint32 (length payload) ++ payload))
        ≡ (if ltb n 4 then err read_header_failed else err read_payload_failed)
  read_cut_frame payload (suc (suc (suc (suc m)))) small full fits cut =
      rw (take_header (length payload) m payload) (
        ground (
          arith,
          cut_payload payload (take m payload) small full fits
              (omega (arith, length-take m payload)),
        ))
  read_cut_frame payload n small full fits cut =
      let frame = put_uint32 (length payload) ++ payload in
      ground (
        arith,
        cut_header (take n frame) (
            omega (
              arith,
              length-take n frame,
              length-append (put_uint32 (length payload)) payload,
              length-put_uint32 (length payload),
            )),
      )
