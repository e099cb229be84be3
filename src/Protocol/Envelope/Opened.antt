-- ===== src/Protocol/Envelope/Opened.antt =====
-- protocol/crypto.go: what `Seal` made is what `Open` accepts.
use yunpin_ime.Base.{◌≡◌, ◌≤◌, refl, ap, ◌∙◌, ℕ, ◌+◌, ◌-◌, ◌%◌, ◌++◌, true, some, arith}
use yunpin_ime.Base.Tests.{le→ltb-false}
use yunpin_ime.Base.Lists.{length, take, drop, length-append, length-take, length-drop}
use yunpin_ime.Base.Bytes.{Bytes, ascii}
use yunpin_ime.Base.Result.{ok}
use yunpin_ime.Protocol.Envelope.{
  Crypto, Codec, Header, Envelope, padded_length, padded_payload, padding_bucket, validate_header,
  validate_envelope_body, seal, open_envelope, derive_object_key, read_full, protocol_version,
  put_uint32, unpad, pad, max_envelope_payload,
}
use yunpin_ime.Protocol.Envelope.Padding.{padded_length-bounds, unpad-padded}

-- What HKDF, XChaCha20-Poly1305 and Ed25519 promise: 32 bytes can be expanded, the tag has 16 bytes, what was sealed opens with the
-- same key, nonce and additional data, and a signature has 64 bytes.
pub record IsCrypto (c : Crypto) : Type 0 where
  pub expands :
      (secret salt info : Bytes)
      → (key : Bytes) × (length key ≡ 32) × (c.expand secret salt info ≡ some key)
  pub open-seal :
      (key nonce plain aad : Bytes)
      → c.open_bytes key nonce (c.seal_bytes key nonce plain aad) aad ≡ some plain
  pub length-seal :
      (key nonce plain aad : Bytes) → length (c.seal_bytes key nonce plain aad) ≡ length plain + 16
  pub length-sign : (key message : Bytes) → length (c.sign key message) ≡ 64

-- The signatures of the private key are the public key's.
abbrev pub IsKeyPair : Crypto → Bytes → Bytes → Type 0
IsKeyPair c private public =
    (length public ≡ 32)
    × ((message : Bytes) → c.verify public message (c.sign private message) ≡ true)

abbrev pub IsCodec : {A : Type 0} → Codec A → Type 0
IsCodec {A} codec =
    (a : A) (encoded : Bytes) → codec.marshal a ≡ some encoded → codec.unmarshal encoded ≡ some a

-- The checks of a header, of a body and of a random source pass.
pub read_full-enough :
    (n : ℕ) (source : Bytes)
    → n ≤ length source
    → read_full n source ≡ ok (take n source, drop n source)
unfolding read_full
read_full-enough n source h = ground (arith, h)

pad-enough :
    (encoded source : Bytes)
    → length encoded ≤ max_envelope_payload
    → padding_bucket ≤ length source
    → (plain : Bytes × Bytes) × (pad encoded source ≡ ok plain)
      × (length plain.0 ≡ padded_length (length encoded))
unfolding pad
pad-enough encoded source h k =
    let bounds = padded_length-bounds (length encoded) in
    let n = padded_length (length encoded) - (4 + length encoded) in
    let fits : n ≤ length source = omega (arith, bounds.1, bounds.2, k) in
    (
      (put_uint32 (length encoded % 4294967296) ++ (encoded ++ take n source), drop n source),
      rw (le→ltb-false _ _ h, read_full-enough n source fits) refl,
      omega (arith, length-append encoded (take n source), length-take n source fits, bounds.1),
    )

body-sealed :
    (ciphertext signature : Bytes) (size : ℕ)
    → size ≤ max_envelope_payload
    → length ciphertext ≡ padded_length size + 16
    → length signature ≡ 64
    → validate_envelope_body ciphertext signature ≡ ok tt
unfolding validate_envelope_body
body-sealed ciphertext signature size h k l =
    rw (k, l) (ground (arith, h, padded_length-bounds size))

module _ (c : Crypto) {A : Type 0} (codec : Codec A) where
  seal-steps :
      (epoch_key : Bytes) (header : Header) (payload : A) (private source aad key : Bytes)
      (plain : Bytes × Bytes)
      → 24 ≤ length source
      → let sent = record header { version = protocol_version; nonce = take 24 source } in
        validate_header sent ≡ ok tt
        → length private ≡ 64
        → c.marshal_header sent ≡ some aad
        → padded_payload codec payload (drop 24 source) ≡ ok plain
        → derive_object_key c epoch_key header.object_id ≡ ok key
        → let ciphertext = c.seal_bytes key (take 24 source) plain.0 aad in
          seal c codec epoch_key header payload private source
          ≡ ok (
            record {
              header = sent;
              ciphertext = ciphertext;
              signature = c.sign private (aad ++ ciphertext);
            },
            plain.1,
          )
  unfolding seal
  seal-steps epoch_key header payload private source aad key plain hs hv hl hm hp hk =
      rw (read_full-enough 24 source hs, hv, hl, hm, hp, hk) refl

  open-steps :
      (epoch_key : Bytes) (e : Envelope) (public aad key plain : Bytes)
      → validate_header e.header ≡ ok tt
      → length public ≡ 32
      → validate_envelope_body e.ciphertext e.signature ≡ ok tt
      → c.marshal_header e.header ≡ some aad
      → c.verify public (aad ++ e.ciphertext) e.signature ≡ true
      → derive_object_key c epoch_key e.header.object_id ≡ ok key
      → c.open_bytes key e.header.nonce e.ciphertext aad ≡ some plain
      → open_envelope c codec epoch_key e public ≡ unpad codec plain
  unfolding open_envelope
  open-steps epoch_key e public aad key plain hv hl hb hm hs hk ho =
      rw (hv, hl, hb, hm, hs, hk, ho) refl

  -- With what sealing needs, an envelope is sealed, and the receivers open it to the same payload.
  pub open-seal :
      (laws : IsCrypto c)
      → IsCodec codec
      → (epoch_key : Bytes) (header : Header) (payload : A)
        (private public source aad encoded : Bytes)
      → let sent = record header { version = protocol_version; nonce = take 24 source } in
        24 + padding_bucket ≤ length source
        → validate_header sent ≡ ok tt
        → length epoch_key ≡ 32
        → length private ≡ 64
        → IsKeyPair c private public
        → c.marshal_header sent ≡ some aad
        → codec.marshal payload ≡ some encoded
        → length encoded ≤ max_envelope_payload
        → (e : Envelope) × (rest : Bytes) × (seal c codec epoch_key header payload private source
            ≡ ok (e, rest))
          × (open_envelope c codec epoch_key e public ≡ ok payload)
  unfolding padded_payload derive_object_key
  open-seal laws codes epoch_key header payload private public source aad encoded hs hv hk hl pair
        hm he small =
      let sent = record header { version = protocol_version; nonce = take 24 source } in
      let room : padding_bucket ≤ length (drop 24 source) =
        omega (arith, length-drop 24 source, hs) in
      let (plain, hp, size) = pad-enough encoded (drop 24 source) small room in
      let padded : padded_payload codec payload (drop 24 source) ≡ ok plain = rw (he, hp) refl in
      let (key, _, hx) = laws.expands epoch_key header.object_id (ascii "yunpin-envelope-v1") in
      let derived : derive_object_key c epoch_key header.object_id ≡ ok key = rw (hk, hx) refl in
      let ciphertext = c.seal_bytes key sent.nonce plain.0 aad in
      let e : Envelope = record {
        header = sent;
        ciphertext = ciphertext;
        signature = c.sign private (aad ++ ciphertext);
      } in
      (
        e,
        plain.1,
        seal-steps epoch_key header payload private source aad key plain (omega (arith, hs)) hv hl
            hm padded derived,
        open-steps epoch_key e public aad key plain.0 hv pair.0
              (body-sealed ciphertext e.signature (length encoded) small
                (laws.length-seal key sent.nonce plain.0 aad ∙ ap (λ n. n + 16) size)
                (laws.length-sign private (aad ++ ciphertext)))
              hm (pair.1 (aad ++ ciphertext)) derived (laws.open-seal key sent.nonce plain.0 aad)
            ∙ unpad-padded codec payload (drop 24 source) (codes payload) padded,
      )
