-- ===== src/Relay/Envelope/Box.antt =====
-- A sealed box in the checks of the relay and in those of a client, protocol/boxes.go.
use yunpin_ime.Base.{
  ◌≡◌, ◌≤◌, refl, sym, ap, ◌∙◌, Bool, true, false, some, [], ◌∷◌, arith, inl, inr,
}
use yunpin_ime.Base.Tests.{ltb, Option-cases, Bool-cases}
use yunpin_ime.Base.Lists.{length, take, drop, length-take, length-drop}
use yunpin_ime.Base.Bytes.{Bytes}
use yunpin_ime.Base.Result.{Result, ok, err}
use yunpin_ime.Protocol.Envelope.{Crypto, uint32}
use yunpin_ime.Protocol.Wire.{Base64}
use yunpin_ime.Protocol.Boxes.{box_of, decode_sealed_box, encoded_len, max_sealed_box_wire_size}
use yunpin_ime.Protocol.Boxes.Wire.{is_empty-length, decoded_lem}
use yunpin_ime.Relay.Envelope.{decode_sealed_box_wire, decode_sized, big_endian}
use yunpin_ime.Relay.Envelope.Upload.{relay_primitives}

abbrev pub is_ok {ℓ κ} : {E : Type ℓ} {A : Type κ} → Result E A → Bool
is_ok (ok a) = true
is_ok (err e) = false

big_endian-uint32 : (four : Bytes) → length four ≡ 4 → big_endian four 0 ≡ uint32 four
unfolding big_endian uint32
big_endian-uint32 [] h = ground (arith, h)
big_endian-uint32 (a ∷ []) h = ground (arith, h)
big_endian-uint32 (a ∷ b ∷ []) h = ground (arith, h)
big_endian-uint32 (a ∷ b ∷ c ∷ []) h = ground (arith, h)
big_endian-uint32 (a ∷ b ∷ c ∷ d ∷ []) h = omega arith
big_endian-uint32 (a ∷ b ∷ c ∷ d ∷ e ∷ r) h = ground (arith, h)

size_agrees :
    (wire : Bytes)
    → 49 ≤ length wire
    → big_endian (take 4 (drop 5 wire)) 0 ≡ uint32 (take 4 (drop 5 wire))
size_agrees wire h =
    big_endian-uint32 (take 4 (drop 5 wire))
      (length-take 4 (drop 5 wire) (omega (arith, length-drop 5 wire, h)))

module _ (c : Crypto) (b : Base64) where
  in_range :
      (text wire : Bytes)
      → b.decode text ≡ some wire
      → ltb (length wire) 49 ≡ false
      → ltb max_sealed_box_wire_size (length wire) ≡ false
      → is_ok (decode_sealed_box_wire (relay_primitives c b) text) ≡ is_ok (box_of wire)
  unfolding decode_sealed_box_wire decode_sized box_of
  in_range text wire h enough short =
      rw (decode_sealed_box_wire, h, enough, short, size_agrees wire (ground (arith, enough)))
        (ground arith)

  checks_agree :
      (text wire : Bytes)
      → b.decode text ≡ some wire
      → is_ok (decode_sealed_box_wire (relay_primitives c b) text) ≡ is_ok (box_of wire)
  unfolding decode_sealed_box_wire decode_sized box_of
  checks_agree text wire h = elim (Bool-cases (ltb (length wire) 49)) [
    | inl short ↦ rw (decode_sealed_box_wire, h, short) refl
    | inr enough ↦ elim (Bool-cases (ltb max_sealed_box_wire_size (length wire))) [
      | inl long ↦ rw (decode_sealed_box_wire, h, enough, long) (ground (arith, long))
      | inr fits ↦ in_range text wire h enough fits
    ]
  ]

  -- On every text of a possible length, the relay and the clients agree on whether it is a sealed
  -- box.
  pub decode_sealed_box_wire-agrees :
      (text : Bytes)
      → 1 ≤ length text
      → length text ≤ encoded_len max_sealed_box_wire_size
      → is_ok (decode_sealed_box_wire (relay_primitives c b) text)
        ≡ is_ok (decode_sealed_box b text)
  unfolding decode_sealed_box_wire decode_sized decode_sealed_box
  decode_sealed_box_wire-agrees text least most = elim (Option-cases (b.decode text)) [
    | inl h ↦ rw (decode_sealed_box_wire, h, is_empty-length text least) (ground (arith, most))
    | inr (wire, h) ↦
        checks_agree text wire h ∙ ap is_ok (sym (decoded_lem b text wire least most h))
  ]
