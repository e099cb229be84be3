-- ===== src/Agent/Credentials/Records.antt =====
-- desktopagent/credentials.go: the numbers and the two maps of a record are what they are read back as.
use yunpin_ime.Base.{
  ◌≡◌, ◌<◌, refl, sym, ap, ◌∙◌, arith, ℕ, ◌/◌, ◌%◌, ◌^◌, false, Option, some, List, [], ◌∷◌, ◌++◌,
}
use yunpin_ime.Base.Tests.{leb, le→ltb-false}
use yunpin_ime.Base.Lists.{length, take, drop, length-append, take-append, drop-append}
use yunpin_ime.Base.Bytes.{Bytes}
use yunpin_ime.Base.Map.{Entries}
use yunpin_ime.Base.Result.{ok}
use yunpin_ime.Protocol.Envelope.{put_uint32}
use yunpin_ime.Protocol.Envelope.Padding.{uint32-put}
use yunpin_ime.Agent.Credentials.{put_uint16, put_uint64, encode_epochs, encode_devices}
use yunpin_ime.Agent.Credentials.Reader.{
  take_bytes, read_uint16, read_uint64, decode_epochs, decode_devices, not_after, uint16_of,
}

pub take_bytes-append :
    (n : ℕ) (xs rest : Bytes) → length xs ≡ n → take_bytes n (xs ++ rest) ≡ ok (xs, rest)
unfolding take_bytes
take_bytes-append n xs rest h =
    rw
      (
        le→ltb-false n (length (xs ++ rest)) (omega (arith, h, length-append xs rest)),
        ap (λ k. take k (xs ++ rest)) (sym h) ∙ take-append xs rest,
        ap (λ k. drop k (xs ++ rest)) (sym h) ∙ drop-append xs rest,
      )
      refl

length-put_uint16 : (n : ℕ) → length (put_uint16 n) ≡ 2
unfolding put_uint16
length-put_uint16 n = refl

length-put_uint64 : (n : ℕ) → length (put_uint64 n) ≡ 8
unfolding put_uint64 put_uint32
length-put_uint64 n = refl

uint16_of-put : (n : ℕ) → n < 65536 → uint16_of (put_uint16 n) ≡ n
unfolding put_uint16
uint16_of-put n h = omega (arith, h)

pub read_uint16-put :
    (n : ℕ) (rest : Bytes) → n < 65536 → read_uint16 (put_uint16 n ++ rest) ≡ ok (n, rest)
unfolding read_uint16
read_uint16-put n rest h =
    rw (take_bytes-append 2 (put_uint16 n) rest (length-put_uint16 n), uint16_of-put n h) refl

halves :
    (n : ℕ)
    → (take 4 (put_uint64 n) ≡ put_uint32 (n / 2 ^ 32))
      × (drop 4 (put_uint64 n) ≡ put_uint32 (n % 2 ^ 32))
unfolding put_uint64 put_uint32
halves n = (refl, refl)

pub read_uint64-put :
    (n : ℕ) (rest : Bytes) → n < 2 ^ 64 → read_uint64 (put_uint64 n ++ rest) ≡ ok (n, rest)
unfolding read_uint64
read_uint64-put n rest h =
    let (high, low) = halves n in
    rw
      (
        take_bytes-append 8 (put_uint64 n) rest (length-put_uint64 n),
        high,
        low,
        uint32-put (n / 2 ^ 32) (omega (arith, h)),
        uint32-put (n % 2 ^ 32) (omega arith),
      )
      (ap (λ m. ok (m, rest)) (omega arith))

-- The epochs rise from a number on, and their keys have 32 bytes.
abbrev pub IsRising : ℕ → List (ℕ × Bytes) → Type 0
IsRising previous [] = Unit {0}
IsRising previous ((epoch, key) ∷ keys) =
    (previous < epoch) × (epoch < 2 ^ 64) × (length key ≡ 32) × IsRising epoch keys

-- The devices rise from one on, with 16 bytes, and their keys have 32.
abbrev pub IsOrdered : Option Bytes → Entries Bytes → Type 0
IsOrdered previous [] = Unit {0}
IsOrdered previous ((device, key) ∷ keys) =
    (not_after previous device ≡ false)
    × (length device ≡ 16)
    × (length key ≡ 32)
    × IsOrdered (some device) keys

pub decode_epochs-encode :
    (previous : ℕ) (keys : List (ℕ × Bytes)) (rest : Bytes)
    → IsRising previous keys
    → decode_epochs (length keys) previous (encode_epochs keys rest) ≡ ok (keys, rest)
unfolding decode_epochs encode_epochs
decode_epochs-encode previous [] rest h = refl
decode_epochs-encode previous ((epoch, key) ∷ keys) rest (above, fits, size, more) =
    let later : leb epoch previous ≡ false = ground (arith, above) in
    rw
      (
        read_uint64-put epoch (key ++ encode_epochs keys rest) fits,
        later,
        take_bytes-append 32 key (encode_epochs keys rest) size,
        decode_epochs-encode epoch keys rest more,
      )
      refl

pub decode_devices-encode :
    (previous : Option Bytes) (keys : Entries Bytes)
    → IsOrdered previous keys
    → decode_devices (length keys) previous (encode_devices keys) ≡ ok (keys, [])
unfolding decode_devices encode_devices
decode_devices-encode previous [] h = refl
decode_devices-encode previous ((device, key) ∷ keys) (later, size, key_size, more) =
    rw
      (
        take_bytes-append 16 device (key ++ encode_devices keys) size,
        later,
        take_bytes-append 32 key (encode_devices keys) key_size,
        decode_devices-encode (some device) keys more,
      )
      refl
