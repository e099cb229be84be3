-- ===== src/Protocol/Boxes/Wire.antt =====
-- protocol/boxes.go: a sealed box is what its transport form is decoded to.
use yunpin_ime.Base.{
  ◌≡◌, ◌≤◌, refl, sym, ap, ap₂, ◌∙◌, ℕ, ◌+◌, ◌*◌, ◌/◌, ◌%◌, ◌++◌, true, false, not, ◌||◌, some, [],
  ◌∷◌, arith,
}
use yunpin_ime.Base.Tests.{ltb, ◌==◌}
use yunpin_ime.Base.Lists.{length, take, drop, length-append, take-append, drop-append}
use yunpin_ime.Base.Bytes.{Bytes, same, is_empty, ascii}
use yunpin_ime.Base.Result.{ok, ◌>>◌, >>=-eq-ok, fail_if}
use yunpin_ime.Base.Ensures.{ok_injective}
use yunpin_ime.Protocol.Envelope.{bad_nonce, put_uint32, uint32, bad_ciphertext_length}
use yunpin_ime.Protocol.Envelope.Padding.{uint32-put}
use yunpin_ime.Protocol.Wire.{Base64}
use yunpin_ime.Protocol.Wire.RoundTrip.{IsBase64}
use yunpin_ime.Protocol.Boxes.{
  SealedBox, encode_sealed_box, decode_sealed_box, box_bytes, box_of,
  max_sealed_box_ciphertext_size, encoded_len, max_sealed_box_wire_size,
}

length-box_bytes :
    (box : SealedBox) → length box.nonce ≡ 24 → length (box_bytes box) ≡ 33 + length box.ciphertext
unfolding put_uint32
length-box_bytes box h = omega (arith, length-append box.nonce box.ciphertext, h)

size_read :
    (box : SealedBox)
    → length box.ciphertext ≤ max_sealed_box_ciphertext_size
    → uint32 (take 4 (drop 5 (box_bytes box))) ≡ length box.ciphertext
unfolding put_uint32
size_read box h = uint32-put (length box.ciphertext % 4294967296) (omega arith) ∙ omega (arith, h)

nonce_read : (nonce rest : Bytes) → length nonce ≡ 24 → take 24 (nonce ++ rest) ≡ nonce
nonce_read nonce rest h = ap (λ n. take n (nonce ++ rest)) (sym h) ∙ take-append nonce rest

ciphertext_read : (nonce rest : Bytes) → length nonce ≡ 24 → drop 24 (nonce ++ rest) ≡ rest
ciphertext_read nonce rest h = ap (λ n. drop n (nonce ++ rest)) (sym h) ∙ drop-append nonce rest

box_of-read :
    (wire : Bytes) (size : ℕ)
    → same (take 4 wire) (ascii "YPBX") ≡ true
    → same (take 1 (drop 4 wire)) (1 ∷ []) ≡ true
    → uint32 (take 4 (drop 5 wire)) ≡ size
    → 16 ≤ size
    → size ≤ max_sealed_box_ciphertext_size
    → length wire ≡ 33 + size
    → box_of wire ≡ ok (record { nonce = take 24 (drop 9 wire); ciphertext = drop 33 wire })
unfolding box_of
box_of-read wire size magic version hs least most hl =
    rw (magic, version, hs, hl) (ground (arith, least, most))

box_of-bytes :
    (box : SealedBox)
    → length box.nonce ≡ 24
    → 16 ≤ length box.ciphertext
    → length box.ciphertext ≤ max_sealed_box_ciphertext_size
    → box_of (box_bytes box) ≡ ok box
unfolding put_uint32 same
box_of-bytes box hn least most =
    box_of-read (box_bytes box) (length box.ciphertext) refl refl (size_read box most) least most
      (length-box_bytes box hn)
    ∙ ap₂ (λ n c. ok (record { nonce = n; ciphertext = c }))
        (nonce_read box.nonce box.ciphertext hn) (ciphertext_read box.nonce box.ciphertext hn)

pub is_empty-length : (bytes : Bytes) → 1 ≤ length bytes → is_empty bytes ≡ false
unfolding is_empty
is_empty-length [] h = ground (arith, h)
is_empty-length (x ∷ bytes) h = refl

module _ (b : Base64) where
  pub decoded_lem :
      (text wire : Bytes)
      → 1 ≤ length text
      → length text ≤ encoded_len max_sealed_box_wire_size
      → b.decode text ≡ some wire
      → decode_sealed_box b text ≡ box_of wire
  unfolding decode_sealed_box
  decoded_lem text wire least most h = rw (is_empty-length text least, h) (ground (arith, most))

  -- Decoding gives back the box that was encoded.
  pub decode_sealed_box-encode :
      IsBase64 b
      → (box : SealedBox) (text : Bytes) → encode_sealed_box b box ≡ ok text
      → decode_sealed_box b text ≡ ok box
  unfolding encode_sealed_box
  decode_sealed_box-encode laws box text h =
      let (_, checks, made) =
        >>=-eq-ok
          (fail_if (not (length box.nonce == 24)) bad_nonce
            >> fail_if
                (ltb (length box.ciphertext) 16
                  || ltb max_sealed_box_ciphertext_size (length box.ciphertext))
                bad_ciphertext_length)
          _ h in
      let hn : length box.nonce ≡ 24 = ground (arith, checks) in
      let least : 16 ≤ length box.ciphertext = ground (arith, checks) in
      let most : length box.ciphertext ≤ max_sealed_box_ciphertext_size = ground (arith, checks) in
      let size =
        laws.length-encode (box_bytes box) ∙ ap (λ n. (n * 8 + 5) / 6) (length-box_bytes box hn) in
      ap (decode_sealed_box b) (sym (ok_injective made))
      ∙ decoded_lem (b.encode (box_bytes box)) (box_bytes box) (omega (arith, size, least))
          (omega (arith, size, most)) (laws.decode-encode (box_bytes box))
      ∙ box_of-bytes box hn least most
