-- ===== src/Relay/Sync/Delivery.antt =====
-- An envelope on its way from one client through the relay's table to another client.
use yunpin_ime.Base.{◌≡◌, refl, sym, ap, ◌∙◌, ℕ, ◌<◌, not, some, none, [], ◌∷◌}
use yunpin_ime.Base.Tests.{◌==◌, if◌then◌else◌}
use yunpin_ime.Base.Lists.{length, All}
use yunpin_ime.Base.Int.{ℤ, pos, negsuc}
use yunpin_ime.Base.Bytes.{Bytes, is_empty}
use yunpin_ime.Base.Text.{hex_encode}
use yunpin_ime.Base.Result.{ok}
use yunpin_ime.Protocol.Envelope.{Crypto, Header}
use yunpin_ime.Protocol.Envelope as Sealed
use yunpin_ime.Protocol.Wire.{WireEnvelope, Base64, wire_of, to_wire, envelope_from_download}
use yunpin_ime.Protocol.Wire.RoundTrip.{
  IsBase64, envelope_from_download-to_wire, suc_nonzero, to_wire-wire_of,
}
use yunpin_ime.Relay.Envelope.{Envelope}
use yunpin_ime.Relay.Envelope.Upload.{relay_primitives, identity_of, decoded_of}
use yunpin_ime.Relay.Sync.{outgoing, stored_row, nullable_bytes}

-- The JSON of a download keeps each field. A cursor of the relay is not negative.
abbrev number : ℤ → ℕ
number (pos n) = n
number (negsuc n) = 0

abbrev pub downloaded : Envelope → WireEnvelope
downloaded e = record {
  version = e.version;
  device_id = e.device_id;
  device_seq = e.device_seq;
  object_id = e.object_id;
  key_epoch = e.key_epoch;
  previous_hash = e.previous_hash;
  nonce = e.nonce;
  ciphertext = e.ciphertext;
  signature = e.signature;
  cursor = number e.cursor;
}

module _ (c : Crypto) (b : Base64) (laws : IsBase64 b) where
  previous_text :
      (hash : Bytes)
      → (if not (length hash == 0) then b.encode hash else [])
        ≡ elim (nullable_bytes hash) [ none ↦ [] | some h ↦ b.encode h ]
  unfolding is_empty
  previous_text [] = refl
  previous_text (x ∷ hash) =
      ap (λ z. if not z then b.encode (x ∷ hash) else []) (suc_nonzero (length hash))

  -- What the relay sends of the row that it filed for an upload is the envelope that was uploaded.
  pub envelope_from_download-outgoing :
      (e : Sealed.Envelope) (wire : WireEnvelope) (key hash : Bytes) (cursor : ℕ)
      → All (λ x. x < 256) e.header.object_id
      → All (λ x. x < 256) e.header.device_id
      → to_wire b e ≡ ok wire
      → envelope_from_download b e.header.account_id (
          downloaded (
            outgoing
              (relay_primitives c b)
              (stored_row (identity_of c b laws e.header key) (decoded_of c b laws e hash) cursor)))
        ≡ ok e
  envelope_from_download-outgoing e wire key hash cursor ho hd h =
      ap
        (λ text. envelope_from_download b e.header.account_id (record (wire_of b e) {
          device_id = hex_encode e.header.device_id;
          cursor = cursor;
          previous_hash = text;
        }))
        (sym (previous_text e.header.previous_hash))
      ∙ envelope_from_download-to_wire b laws e (wire_of b e) cursor ho hd
          (h ∙ ap ok (to_wire-wire_of b e h))
