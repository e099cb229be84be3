-- ===== src/Protocol/Envelope/Padding.antt =====
-- protocol/crypto.go: `paddedPayload` and what `Open` takes out of it.
use yunpin_ime.Base.{◌≡◌, ◌≤◌, ◌<◌, sym, ap, ◌∙◌, ℕ, ◌+◌, ◌-◌, ◌%◌, ◌++◌, some, inl, inr, arith}
use yunpin_ime.Base.Tests.{ltb, Bool-cases}
use yunpin_ime.Base.Lists.{length, take, drop, length-append, take-append, length-take}
use yunpin_ime.Base.Bytes.{Bytes}
use yunpin_ime.Base.Result.{
  ◌>>◌, with_error, ok, >>=-eq-ok, with_error-eq-ok, fail_if, fail_if-eq-ok,
}
use yunpin_ime.Base.Ensures.{ok_injective}
use yunpin_ime.Protocol.Envelope.{
  Codec, padded_length, decoding_failed, encoding_failed, payload_too_large, pad, padded_payload,
  put_uint32, uint32, unpad, read_full, padding_bucket, max_envelope_payload,
}

-- The padded length is a multiple of the bucket, the smallest with room for the payload and its
-- four bytes of length.
pub padded_length-bounds :
    (size : ℕ)
    → (padded_length size % padding_bucket ≡ 0)
      × (size + 4 ≤ padded_length size)
      × (padded_length size < size + 4 + padding_bucket)
unfolding padded_length
padded_length-bounds size = ground arith

pub uint32-put : (n : ℕ) → n < 4294967296 → uint32 (put_uint32 n) ≡ n
unfolding uint32 put_uint32
uint32-put n h = omega (arith, h)

pub read_full-ok :
    (n : ℕ) (source : Bytes) {read : Bytes × Bytes}
    → read_full n source ≡ ok read
    → (read ≡ (take n source, drop n source)) × (length read.0 ≡ n)
unfolding read_full
read_full-ok n source h = elim (Bool-cases (ltb (length source) n)) [
  | inl short ↦ ground (arith, h, short)
  | inr enough ↦ ground (arith, h, enough, length-take n source)
]

pub pad-ok :
    (encoded source : Bytes) {plain : Bytes × Bytes}
    → pad encoded source ≡ ok plain
    → (length encoded ≤ max_envelope_payload)
      × (fill : Bytes) × (length fill ≡ padded_length (length encoded) - (4 + length encoded))
      × (plain.0 ≡ put_uint32 (length encoded % 4294967296) ++ (encoded ++ fill))
unfolding pad
pad-ok encoded source {plain} h =
    let n = padded_length (length encoded) - (4 + length encoded) in
    let (read, checks, made) =
      >>=-eq-ok
        (fail_if (ltb max_envelope_payload (length encoded)) payload_too_large
          >> read_full n source)
        _ h in
    let (u, small, hr) =
      >>=-eq-ok (fail_if (ltb max_envelope_payload (length encoded)) payload_too_large) _ checks in
    (
      ground (arith, fail_if-eq-ok _ _ small),
      read.0,
      (read_full-ok n source hr).1,
      sym (ap (λ r. r.0) (ok_injective made)),
    )

module _ {A : Type 0} (codec : Codec A) where
  unpad-read :
      (plain encoded : Bytes) (size : ℕ)
      → 4 ≤ length plain
      → uint32 (take 4 plain) ≡ size
      → size ≤ length plain - 4
      → take size (drop 4 plain) ≡ encoded
      → unpad codec plain ≡ with_error decoding_failed (codec.unmarshal encoded)
  unfolding unpad
  unpad-read plain encoded size h k l e = rw (k, e) (ground (arith, h, l))

  unpad-put :
      (encoded fill : Bytes) (n : ℕ)
      → n < 4294967296
      → n ≡ length encoded
      → unpad codec (put_uint32 n ++ (encoded ++ fill))
        ≡ with_error decoding_failed (codec.unmarshal encoded)
  unfolding put_uint32
  unpad-put encoded fill n h e =
      unpad-read (put_uint32 n ++ (encoded ++ fill)) encoded n (omega arith) (uint32-put n h)
        (omega (arith, length-append encoded fill, e))
        (ap (λ k. take k (encoded ++ fill)) e ∙ take-append encoded fill)

  -- A padded payload has the padded length, and the payload is what its reader takes out.
  pub unpad-padded :
      (payload : A) (source : Bytes) {plain : Bytes × Bytes}
      → ((encoded : Bytes)
          → codec.marshal payload ≡ some encoded
          → codec.unmarshal encoded ≡ some payload)
      → padded_payload codec payload source ≡ ok plain
      → unpad codec plain.0 ≡ ok payload
  unfolding padded_payload
  unpad-padded payload source {plain} codes h =
      let (encoded, he, hp) = >>=-eq-ok (with_error encoding_failed (codec.marshal payload)) _ h in
      let (small, fill, _, e) = pad-ok encoded source hp in
      ap (λ p. unpad codec p) e
      ∙ unpad-put encoded fill (length encoded % 4294967296) (omega arith) (omega (arith, small))
      ∙ ap (with_error decoding_failed) (codes encoded (with_error-eq-ok _ _ he))
