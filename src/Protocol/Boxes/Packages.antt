-- ===== src/Protocol/Boxes/Packages.antt =====
-- protocol/boxes.go: what is sealed for a recovery or for a pairing is what the other side opens.
use yunpin_ime.Base.{◌≡◌, ◌≤◌, refl, false, some, []}
use yunpin_ime.Base.Tests.{le→ltb-false}
use yunpin_ime.Base.Lists.{length, take, drop, length-take}
use yunpin_ime.Base.Bytes.{Bytes, ascii}
use yunpin_ime.Base.Result.{ok}
use yunpin_ime.Protocol.Envelope.{Crypto, Codec}
use yunpin_ime.Protocol.Envelope.Opened.{IsCrypto, IsCodec, read_full-enough}
use yunpin_ime.Protocol.Boxes.{
  SealedBox, RecoveryPackage, KeyAgreement, seal_box, open_box, derive_recovery_keys,
  derive_pairing_key, seal_pairing_payload, open_pairing_payload, bad_package,
  seal_recovery_package, open_recovery_package, pairing_aad, recovery_aad,
}

module _ (c : Crypto) (laws : IsCrypto c) where
  box_lem :
      {A : Type 0} (codec : Codec A)
      → IsCodec codec
      → (key aad : Bytes) (payload : A) (source encoded : Bytes) → length key ≡ 32
      → codec.marshal payload ≡ some encoded
      → 24 ≤ length source
      → (box : SealedBox) × (seal_box c codec key aad payload source ≡ ok (box, drop 24 source))
        × (open_box c codec key aad box ≡ ok payload)
  unfolding seal_box open_box
  box_lem codec codes key aad payload source encoded hk hm hs =
      let nonce = take 24 source in
      (
        record { nonce = nonce; ciphertext = c.seal_bytes key nonce encoded aad },
        rw (hk, hm, read_full-enough 24 source hs) refl,
        rw
            (
              hk,
              length-take 24 source hs,
              laws.open-seal key nonce encoded aad,
              codes payload encoded hm,
            )
            refl,
      )

  recovery_keys_lem :
      (recovery_key : Bytes)
      → length recovery_key ≡ 32
      → (keys : Bytes × Bytes) × (length keys.0 ≡ 32)
        × (derive_recovery_keys c recovery_key ≡ ok keys)
  unfolding derive_recovery_keys
  recovery_keys_lem recovery_key h =
      let (encryption, l, he) =
        laws.expands recovery_key [] (ascii "yunpin-recovery-encryption-v1") in
      let (authentication, _, ha) =
        laws.expands recovery_key [] (ascii "yunpin-recovery-authentication-v1") in
      ((encryption, authentication), l, rw (h, he, ha) refl)

  -- With 32 bytes of recovery key, a valid package that can be encoded and 24 random bytes, a package
  -- is sealed, and the recovery key opens it to the same package.
  pub open_recovery_package-seal :
      (codec : Codec RecoveryPackage)
      → IsCodec codec
      → (recovery_key : Bytes) (payload : RecoveryPackage) (source encoded : Bytes)
      → length recovery_key ≡ 32
      → bad_package payload ≡ false
      → codec.marshal payload ≡ some encoded
      → 24 ≤ length source
      → (box : SealedBox) × (seal_recovery_package c codec recovery_key payload source
          ≡ ok (box, drop 24 source))
        × (open_recovery_package c codec recovery_key box ≡ ok payload)
  unfolding seal_recovery_package open_recovery_package
  open_recovery_package-seal codec codes recovery_key payload source encoded hr hp hm hs =
      let (keys, l, hk) = recovery_keys_lem recovery_key hr in
      let (box, sealed, opened) =
        box_lem codec codes keys.0 recovery_aad payload source encoded l hm hs in
      (box, rw (hp, hk, sealed) refl, rw (hk, opened, hp) refl)

  -- The keys of the two devices agree.
  abbrev pub Agree : KeyAgreement → Bytes → Bytes → Bytes → Bytes → Bytes → Type 0
  Agree k private public peer_private peer_public shared =
      (k.x25519 private peer_public ≡ some shared) × (k.x25519 peer_private public ≡ some shared)

  pairing_key_lem :
      (k : KeyAgreement) (private peer_public nonce shared : Bytes)
      → length private ≡ 32
      → length peer_public ≡ 32
      → 16 ≤ length nonce
      → k.x25519 private peer_public ≡ some shared
      → derive_pairing_key c k private peer_public nonce
        ≡ ok (laws.expands shared nonce (ascii "yunpin-pairing-v1")).0
  unfolding derive_pairing_key
  pairing_key_lem k private peer_public nonce shared hp hq hn h =
      rw
        (
          hp,
          hq,
          le→ltb-false 16 (length nonce) hn,
          h,
          (laws.expands shared nonce (ascii "yunpin-pairing-v1")).2,
        )
        refl

  -- With key pairs that agree on a secret, a nonce of 16 bytes or more, a payload that can be
  -- encoded and 24 random bytes, a device seals a payload and its peer opens it to the same payload.
  pub open_pairing_payload-seal :
      (k : KeyAgreement) {A : Type 0} (codec : Codec A)
      → IsCodec codec
      → (private public peer_private peer_public nonce shared : Bytes) (payload : A)
        (source encoded : Bytes)
      → Agree k private public peer_private peer_public shared
      → length private ≡ 32
      → length public ≡ 32
      → length peer_private ≡ 32
      → length peer_public ≡ 32
      → 16 ≤ length nonce
      → codec.marshal payload ≡ some encoded
      → 24 ≤ length source
      → (box : SealedBox) × (seal_pairing_payload c k codec private peer_public nonce payload source
          ≡ ok (box, drop 24 source))
        × (open_pairing_payload c k codec peer_private public nonce box ≡ ok payload)
  unfolding seal_pairing_payload open_pairing_payload
  open_pairing_payload-seal k codec codes private public peer_private peer_public nonce shared
        payload source encoded (ours, theirs) h1 h2 h3 h4 hn hm hs =
      let (key, l, _) = laws.expands shared nonce (ascii "yunpin-pairing-v1") in
      let (box, sealed, opened) =
        box_lem codec codes key (pairing_aad nonce) payload source encoded l hm hs in
      (
        box,
        rw (pairing_key_lem k private peer_public nonce shared h1 h4 hn ours, sealed) refl,
        rw (pairing_key_lem k peer_private public nonce shared h3 h2 hn theirs, opened) refl,
      )
