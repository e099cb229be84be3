-- ===== src/Relay/Envelope/Upload.antt =====
-- The envelopes that protocol/wire.go makes, as sync/internal/server/server.go validates them.
use yunpin_ime.Base.{
  ◌≡◌, ◌≤◌, ◌<◌, refl, sym, ap, ◌∙◌, ℕ, ◌++◌, true, false, not, ◌||◌, ◌&&◌, some, [], ◌∷◌, arith,
}
use yunpin_ime.Base.Tests.{ltb, ◌==◌, if◌then◌else◌}
use yunpin_ime.Base.Lists.{length, All}
use yunpin_ime.Base.Int.{pos, compare_int, max_int64}
use yunpin_ime.Base.Bytes.{Bytes, is_empty}
use yunpin_ime.Base.Text.{hex_encode, hex_decode-encode}
use yunpin_ime.Base.Result.{ok, ◌>>◌, >>=-eq-ok}
use yunpin_ime.Base.Ensures.{ok_injective}
use yunpin_ime.Protocol.Envelope.{Crypto, validate_header, validate_envelope_body, envelope_hash}
use yunpin_ime.Protocol.Envelope as Sealed
use yunpin_ime.Protocol.Wire.{WireEnvelope, Base64, wire_of, to_wire}
use yunpin_ime.Protocol.Wire.RoundTrip.{IsBase64, not_empty, suc_nonzero}
use yunpin_ime.Relay.Envelope.{
  Identity, Envelope, DecodedEnvelope, Primitives, validate_envelope, decode_sized, bad_metadata,
  canonical_header, decode_object_id, decode_previous, decode_ciphertext,
}

-- The relay and the clients have the same libraries, and the JSON of an upload keeps each field.
abbrev pub relay_primitives : Crypto → Base64 → Primitives
relay_primitives c b = record {
  decode_base64 = b.decode;
  encode_base64 = b.encode;
  marshal_header = λ h. c.marshal_header (record {
    version = h.version;
    account_id = h.account_id;
    object_id = h.object_id;
    key_epoch = h.key_epoch;
    device_id = h.device_id;
    device_seq = h.device_seq;
    previous_hash = h.previous_hash;
    nonce = h.nonce;
  });
  verify = c.verify;
  sha256 = c.sha256;
}

abbrev pub received : WireEnvelope → Envelope
received w = record {
  version = w.version;
  device_id = w.device_id;
  device_seq = w.device_seq;
  object_id = w.object_id;
  key_epoch = w.key_epoch;
  previous_hash = w.previous_hash;
  nonce = w.nonce;
  ciphertext = w.ciphertext;
  signature = w.signature;
  cursor = pos w.cursor;
}

-- What the checks of a header leave.
record Sizes (h : Sealed.Header) : Type 0 where
  pub account : length h.account_id ≡ 16
  pub object : length h.object_id ≡ 16
  pub device : length h.device_id ≡ 16
  pub nonce : length h.nonce ≡ 24
  pub previous : (not (is_empty h.previous_hash) && not (length h.previous_hash == 32)) ≡ false

previous_size :
    (hash : Bytes)
    → (not (length hash == 0) && not (length hash == 32)) ≡ false
    → (not (is_empty hash) && not (length hash == 32)) ≡ false
unfolding is_empty
previous_size [] h = refl
previous_size (x ∷ hash) h = ground (arith, h)

header-Sizes : (h : Sealed.Header) → validate_header h ≡ ok tt → Sizes h
unfolding validate_header
header-Sizes h v = record {
  account = ground (arith, v);
  object = ground (arith, v);
  device = ground (arith, v);
  nonce = ground (arith, v);
  previous = previous_size h.previous_hash (ground (arith, v));
}

module _ (c : Crypto) (b : Base64) (laws : IsBase64 b) where
  abbrev p : Primitives
  p = relay_primitives c b

  metadata_ok :
      (e : Sealed.Envelope)
      → validate_header e.header ≡ ok tt
      → bad_metadata p (received (wire_of b e)) ≡ false
  unfolding validate_header is_empty compare_int
  metadata_ok e h =
      let one : (e.header.version == 1) ≡ true = ground (arith, h) in
      let seq : (ltb e.header.device_seq 1 || ltb max_int64 e.header.device_seq) ≡ false =
        ground (arith, h) in
      let epoch : (ltb e.header.key_epoch 1 || ltb max_int64 e.header.key_epoch) ≡ false =
        ground (arith, h) in
      rw (one) (ground (arith, seq, epoch))

  sized :
      (bytes : Bytes) (least most : ℕ)
      → least ≤ length bytes
      → length bytes ≤ most
      → decode_sized p (b.encode bytes) least most ≡ some bytes
  unfolding decode_sized
  sized bytes least most h k = rw (laws.decode-encode bytes) (ground (arith, h, k))

  object_ok :
      (id : Bytes)
      → All (λ x. x < 256) id
      → length id ≡ 16
      → decode_object_id p (hex_encode id) ≡ ok id
  unfolding decode_object_id
  object_ok id h k = rw (decode_object_id, hex_decode-encode id h, k) refl

  ciphertext_ok :
      (ciphertext signature : Bytes)
      → validate_envelope_body ciphertext signature ≡ ok tt
      → decode_ciphertext p (b.encode ciphertext) ≡ ok ciphertext
  unfolding decode_ciphertext validate_envelope_body
  ciphertext_ok ciphertext signature h =
      rw (sized ciphertext 528 524816 (ground (arith, h)) (ground (arith, h))) (ground (arith, h))

  previous_some :
      (text : Bytes) (x : ℕ) (bytes : Bytes)
      → b.decode text ≡ some (x ∷ bytes)
      → length (x ∷ bytes) ≡ 32
      → decode_previous p text ≡ ok (x ∷ bytes)
  unfolding decode_previous decode_sized
  previous_some text x bytes h k = rw (decode_previous, not_empty b laws text x bytes h, h, k) refl

  previous_ok :
      (hash : Bytes)
      → (not (is_empty hash) && not (length hash == 32)) ≡ false
      → decode_previous p (if not (length hash == 0) then b.encode hash else []) ≡ ok hash
  unfolding decode_previous is_empty
  previous_ok [] h = refl
  previous_ok (x ∷ hash) h =
      ap (λ z. decode_previous p (if not z then b.encode (x ∷ hash) else []))
        (suc_nonzero (length hash))
      ∙ previous_some (b.encode (x ∷ hash)) x hash (laws.decode-encode (x ∷ hash))
          (ground (arith, h))

  -- The identity under which the device of an envelope is authenticated.
  abbrev pub identity_of : Sealed.Header → Bytes → Identity
  identity_of h key = record {
    id = hex_encode h.device_id;
    account_id = hex_encode h.account_id;
    ed25519_key = key;
  }

  header_ok :
      (e : Sealed.Envelope) (aad : Bytes)
      → Sizes e.header
      → All (λ x. x < 256) e.header.account_id
      → All (λ x. x < 256) e.header.device_id
      → All (λ x. x < 256) e.header.object_id
      → c.marshal_header e.header ≡ some aad
      → canonical_header p
          (hex_encode e.header.account_id)
          (hex_encode e.header.device_id)
          (received (wire_of b e))
          e.header.previous_hash
          e.header.nonce
        ≡ some aad
  unfolding canonical_header
  header_ok e aad s ha hd ho hm =
      rw
        (
          canonical_header,
          hex_decode-encode e.header.account_id ha,
          hex_decode-encode e.header.device_id hd,
          hex_decode-encode e.header.object_id ho,
          s.account,
          s.device,
          s.object,
          s.previous,
          s.nonce,
        )
        hm

  nonce_ok :
      (bytes : Bytes) → length bytes ≡ 24 → decode_sized p (b.encode bytes) 24 24 ≡ some bytes
  nonce_ok bytes h = sized bytes 24 24 (omega (arith, h)) (omega (arith, h))

  signature_ok :
      (ciphertext signature : Bytes)
      → validate_envelope_body ciphertext signature ≡ ok tt
      → decode_sized p (b.encode signature) 64 64 ≡ some signature
  unfolding validate_envelope_body
  signature_ok ciphertext signature h =
      sized signature 64 64 (ground (arith, h)) (ground (arith, h))

  abbrev pub decoded_of : Sealed.Envelope → Bytes → DecodedEnvelope
  decoded_of e hash = record {
    envelope = received (wire_of b e);
    object_id = e.header.object_id;
    previous_hash = e.header.previous_hash;
    nonce = e.header.nonce;
    ciphertext = e.ciphertext;
    signature = e.signature;
    record_hash = hash;
  }

  accepted_lem :
      (e : Sealed.Envelope) (aad key : Bytes)
      → All (λ x. x < 256) e.header.account_id
      → All (λ x. x < 256) e.header.device_id
      → All (λ x. x < 256) e.header.object_id
      → validate_header e.header ≡ ok tt
      → validate_envelope_body e.ciphertext e.signature ≡ ok tt
      → c.marshal_header e.header ≡ some aad
      → c.verify key (aad ++ e.ciphertext) e.signature ≡ true
      → validate_envelope p (identity_of e.header key) (received (wire_of b e))
        ≡ ok (decoded_of e (c.sha256 ((aad ++ e.ciphertext) ++ e.signature)))
  unfolding validate_envelope
  accepted_lem e aad key ha hd ho hv hb hm hs =
      let s = header-Sizes e.header hv in
      rw
        (
          validate_envelope,
          metadata_ok e hv,
          object_ok e.header.object_id ho s.object,
          previous_ok e.header.previous_hash s.previous,
          nonce_ok e.header.nonce s.nonce,
          ciphertext_ok e.ciphertext e.signature hb,
          signature_ok e.ciphertext e.signature hb,
          header_ok e aad s ha hd ho hm,
          hs,
        )
        refl

  -- The relay accepts what a client uploads of an envelope that its device has signed, and files it
  -- under the hash that the client computes.
  pub validate_envelope-to_wire :
      (e : Sealed.Envelope) (wire : WireEnvelope) (aad key : Bytes)
      → All (λ x. x < 256) e.header.account_id
      → All (λ x. x < 256) e.header.device_id
      → All (λ x. x < 256) e.header.object_id
      → to_wire b e ≡ ok wire
      → c.marshal_header e.header ≡ some aad
      → c.verify key (aad ++ e.ciphertext) e.signature ≡ true
      → (hash : Bytes) × (envelope_hash c e ≡ ok hash)
        × (validate_envelope p (identity_of e.header key) (received wire) ≡ ok (decoded_of e hash))
  unfolding to_wire envelope_hash
  validate_envelope-to_wire e wire aad key ha hd ho h hm hs =
      let (_, checks, made) =
        >>=-eq-ok (validate_header e.header >> validate_envelope_body e.ciphertext e.signature) _
          h in
      let (_, hv, hb) = >>=-eq-ok (validate_header e.header) _ checks in
      (
        c.sha256 ((aad ++ e.ciphertext) ++ e.signature),
        rw (hv, hb, hm) refl,
        ap (λ w. validate_envelope p (identity_of e.header key) (received w))
              (sym (ok_injective made))
            ∙ accepted_lem e aad key ha hd ho hv hb hm hs,
      )
