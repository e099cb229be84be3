-- ===== src/Protocol/Wire/RoundTrip.antt =====
-- protocol/wire.go: an envelope that was uploaded is the envelope that is downloaded.
use yunpin_ime.Base.{
  ◌≡◌, ◌≤◌, ◌<◌, refl, sym, ap, ◌∙◌, ℕ, suc, ◌+◌, ◌*◌, ◌/◌, false, not, some, [], ◌∷◌, arith,
}
use yunpin_ime.Base.Tests.{◌==◌, if◌then◌else◌}
use yunpin_ime.Base.Lists.{length, All}
use yunpin_ime.Base.Bytes.{Bytes, same_iff, is_empty}
use yunpin_ime.Base.Result.{ok, ◌>>◌, >>=-eq-ok}
use yunpin_ime.Base.Ensures.{ok_injective}
use yunpin_ime.Base.Text.{hex_encode, hex_decode-encode, length-hex_encode, to_lower-hex_encode}
use yunpin_ime.Protocol.Envelope.{Envelope, Header, validate_header, validate_envelope_body}
use yunpin_ime.Protocol.Wire.{
  WireEnvelope, Base64, decode_hex_wire_id, to_wire, wire_of, check_device, decode_wire_previous,
  envelope_from_wire, envelope_from_download,
}

-- Decoding gives back what was encoded, no text decodes to no bytes, and the encoding of n bytes has
-- `EncodedLen(n)` digits.
pub record IsBase64 (b : Base64) : Type 0 where
  pub decode-encode : (bytes : Bytes) → b.decode (b.encode bytes) ≡ some bytes
  pub decode-empty : b.decode [] ≡ some []
  pub length-encode : (bytes : Bytes) → length (b.encode bytes) ≡ (length bytes * 8 + 5) / 6

pub decode_hex_wire_id-encode :
    (id : Bytes)
    → All (λ b. b < 256) id
    → length id ≡ 16
    → decode_hex_wire_id (hex_encode id) ≡ ok id
unfolding decode_hex_wire_id
decode_hex_wire_id-encode id h k =
    rw
      (
        length-hex_encode id,
        k,
        to_lower-hex_encode id h,
        (same_iff (hex_encode id) (hex_encode id)).1 refl,
        hex_decode-encode id h,
        k,
      )
      refl

pub hex_encode-is_empty : (bs : Bytes) → 1 ≤ length bs → is_empty (hex_encode bs) ≡ false
unfolding hex_encode is_empty
hex_encode-is_empty [] h = ground (arith, h)
hex_encode-is_empty (b ∷ bs) h = refl

pub valid_header-lengths :
    (h : Header) → validate_header h ≡ ok tt → (length h.object_id ≡ 16) × (length h.device_id ≡ 16)
unfolding validate_header
valid_header-lengths h v = ground (arith, v)

pub suc_nonzero : (n : ℕ) → (suc n == 0) ≡ false
suc_nonzero n = ground arith

module _ (b : Base64) (laws : IsBase64 b) where
  pub not_empty :
      (text : Bytes) (x : ℕ) (bytes : Bytes)
      → b.decode text ≡ some (x ∷ bytes)
      → is_empty text ≡ false
  unfolding is_empty
  not_empty [] x bytes h = ground (arith, h, laws.decode-empty)
  not_empty (y ∷ text) x bytes h = refl

  decode_previous-some :
      (text : Bytes) (x : ℕ) (bytes : Bytes)
      → b.decode text ≡ some (x ∷ bytes)
      → decode_wire_previous b text ≡ ok (x ∷ bytes)
  unfolding decode_wire_previous
  decode_previous-some text x bytes h = rw (not_empty text x bytes h, h) refl

  decode_previous-encode :
      (hash : Bytes)
      → decode_wire_previous b (if not (length hash == 0) then b.encode hash else []) ≡ ok hash
  unfolding decode_wire_previous is_empty
  decode_previous-encode [] = refl
  decode_previous-encode (x ∷ hash) =
      ap (λ z. decode_wire_previous b (if not z then b.encode (x ∷ hash) else []))
        (suc_nonzero (length hash))
      ∙ decode_previous-some (b.encode (x ∷ hash)) x hash (laws.decode-encode (x ∷ hash))

  from_wire_of :
      (e : Envelope) (device_id : Bytes) (cursor : ℕ)
      → validate_header e.header ≡ ok tt
      → validate_envelope_body e.ciphertext e.signature ≡ ok tt
      → All (λ x. x < 256) e.header.object_id
      → check_device b e.header.device_id device_id ≡ ok tt
      → envelope_from_wire b e.header.account_id e.header.device_id
          (record (wire_of b e) { device_id = device_id; cursor = cursor })
        ≡ ok e
  unfolding envelope_from_wire
  from_wire_of e device_id cursor hv hb ho hd =
      rw
        (
          decode_hex_wire_id-encode e.header.object_id ho (valid_header-lengths e.header hv).0,
          hd,
          laws.decode-encode e.header.nonce,
          laws.decode-encode e.ciphertext,
          laws.decode-encode e.signature,
          decode_previous-encode e.header.previous_hash,
          hv,
          hb,
        )
        refl

  -- An envelope that the upload form is made of is the one that the download form gives back,
  -- whatever cursor the relay has put in.
  pub envelope_from_download-to_wire :
      (e : Envelope) (wire : WireEnvelope) (cursor : ℕ)
      → All (λ x. x < 256) e.header.object_id
      → All (λ x. x < 256) e.header.device_id
      → to_wire b e ≡ ok wire
      → envelope_from_download b e.header.account_id
          (record wire { device_id = hex_encode e.header.device_id; cursor = cursor })
        ≡ ok e
  unfolding to_wire envelope_from_download check_device
  envelope_from_download-to_wire e wire cursor ho hd h =
      let (_, checks, made) =
        >>=-eq-ok (validate_header e.header >> validate_envelope_body e.ciphertext e.signature) _
          h in
      let (_, hv, hb) = >>=-eq-ok (validate_header e.header) _ checks in
      let (_, l) = valid_header-lengths e.header hv in
      let full = hex_encode-is_empty e.header.device_id (omega (arith, l)) in
      let device = decode_hex_wire_id-encode e.header.device_id hd l in
      let same_device = (same_iff e.header.device_id e.header.device_id).1 refl in
      rw (full, device)
        (ap
            (λ w.
              envelope_from_wire b e.header.account_id e.header.device_id
                (record w { device_id = hex_encode e.header.device_id; cursor = cursor }))
            (sym (ok_injective made))
          ∙ from_wire_of e (hex_encode e.header.device_id) cursor hv hb ho
              (rw (full, device, same_device) refl))

pub to_wire-wire_of :
    (b : Base64) (e : Envelope) {wire : WireEnvelope} → to_wire b e ≡ ok wire → wire ≡ wire_of b e
unfolding to_wire
to_wire-wire_of b e h =
    let (_, _, made) =
      >>=-eq-ok (validate_header e.header >> validate_envelope_body e.ciphertext e.signature) _ h in
    sym (ok_injective made)
