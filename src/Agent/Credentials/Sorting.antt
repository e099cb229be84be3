-- ===== src/Agent/Credentials/Sorting.antt =====
-- desktopagent/credentials.go: sorting puts the two maps of a bundle in the order of their keys, and
-- changes nothing that is read from them.
use yunpin_ime.Base.{
  ◌≡◌, ◌<◌, ◌∙◌, refl, ap, arith, inl, inr, ℕ, suc, ◌^◌, true, false, not, Option, none, some, List,
  [], ◌∷◌,
}
use yunpin_ime.Base.Tests.{Bool-cases, ltb, ◌==◌, if◌then◌else◌}
use yunpin_ime.Base.Lists.{length}
use yunpin_ime.Base.Bytes.{Bytes, same, same_iff, compare_bytes-IsTotalOrder}
use yunpin_ime.Base.Map.{Entries, lookup}
use yunpin_ime.Protocol.Clock.{ltb_bytes}
use yunpin_ime.Agent.Credentials.{
  insert_epoch, sort_epochs, insert_device, sort_devices, epoch_keys_ok, has_epoch,
  verification_keys_ok,
}
use yunpin_ime.Agent.Credentials.Reader.{not_after}
use yunpin_ime.Agent.Credentials.Records.{IsRising, IsOrdered}

-- What is read of an epoch.
unfoldable pub key_of : ℕ → List (ℕ × Bytes) → Option Bytes
key_of epoch [] = none
key_of epoch ((e, key) ∷ keys) = if e == epoch then some key else key_of epoch keys

-- A map from epochs to keys of 32 bytes.
abbrev pub AreEpochs : List (ℕ × Bytes) → Type 0
AreEpochs [] = Unit {0}
AreEpochs ((epoch, key) ∷ keys) = (key_of epoch keys ≡ none) × (length key ≡ 32) × AreEpochs keys

-- A map from devices of 16 bytes to keys of 32.
abbrev pub AreDevices : Entries Bytes → Type 0
AreDevices [] = Unit {0}
AreDevices ((device, key) ∷ keys) =
    (lookup device keys ≡ none) × (length device ≡ 16) × (length key ≡ 32) × AreDevices keys

key_of-insert_epoch :
    (epoch : ℕ) (e : ℕ × Bytes) (keys : List (ℕ × Bytes))
    → key_of epoch (insert_epoch e keys) ≡ key_of epoch (e ∷ keys)
unfolding key_of insert_epoch
key_of-insert_epoch epoch e [] = refl
key_of-insert_epoch epoch e (f ∷ keys) = ground (arith, key_of-insert_epoch epoch e keys)

pub key_of-sort_epochs :
    (epoch : ℕ) (keys : List (ℕ × Bytes)) → key_of epoch (sort_epochs keys) ≡ key_of epoch keys
unfolding key_of sort_epochs
key_of-sort_epochs epoch [] = refl
key_of-sort_epochs epoch (e ∷ keys) =
    key_of-insert_epoch epoch e (sort_epochs keys)
    ∙ ap (λ rest. if e.0 == epoch then some e.1 else rest) (key_of-sort_epochs epoch keys)

insert_epoch-tests :
    (current : ℕ) (e : ℕ × Bytes) (keys : List (ℕ × Bytes))
    → (length (insert_epoch e keys) ≡ suc (length keys))
      × (epoch_keys_ok (insert_epoch e keys) ≡ epoch_keys_ok (e ∷ keys))
      × (has_epoch current (insert_epoch e keys) ≡ has_epoch current (e ∷ keys))
unfolding insert_epoch epoch_keys_ok has_epoch
insert_epoch-tests current e [] = (refl, refl, refl)
insert_epoch-tests current e (f ∷ keys) =
    let (size, valid, found) = insert_epoch-tests current e keys in
    (ground (arith, size), ground (arith, valid), ground (arith, found))

pub sort_epochs-tests :
    (current : ℕ) (keys : List (ℕ × Bytes))
    → (length (sort_epochs keys) ≡ length keys)
      × (epoch_keys_ok (sort_epochs keys) ≡ epoch_keys_ok keys)
      × (has_epoch current (sort_epochs keys) ≡ has_epoch current keys)
unfolding sort_epochs epoch_keys_ok has_epoch
sort_epochs-tests current [] = (refl, refl, refl)
sort_epochs-tests current (e ∷ keys) =
    let (size, valid, found) = sort_epochs-tests current keys in
    let (size', valid', found') = insert_epoch-tests current e (sort_epochs keys) in
    (ground (arith, size, size'), ground (arith, valid, valid'), ground (arith, found, found'))

insert_epoch-IsRising :
    (previous epoch : ℕ) (key : Bytes) (keys : List (ℕ × Bytes))
    → previous < epoch
    → epoch < 2 ^ 64
    → length key ≡ 32
    → key_of epoch keys ≡ none
    → IsRising previous keys
    → IsRising previous (insert_epoch (epoch, key) keys)
unfolding insert_epoch key_of
insert_epoch-IsRising previous epoch key [] above fits size free h = (above, fits, size, tt)
insert_epoch-IsRising previous epoch key ((next, other) ∷ keys) above fits size free
      (later, bound, same_size, more) =
    elim (Bool-cases (ltb next epoch)) [
      | inl first ↦ rw first (
        later,
        bound,
        same_size,
        insert_epoch-IsRising next epoch key keys (ground (arith, first)) fits size
            (ground (arith, free, first)) more,
      )
      | inr last ↦ rw last (above, fits, size, (ground (arith, last, free), bound, same_size, more))
    ]

pub sort_epochs-IsRising :
    (keys : List (ℕ × Bytes))
    → AreEpochs keys
    → epoch_keys_ok keys ≡ true
    → IsRising 0 (sort_epochs keys)
unfolding sort_epochs epoch_keys_ok
sort_epochs-IsRising [] h v = tt
sort_epochs-IsRising ((epoch, key) ∷ keys) (free, size, more) v =
    insert_epoch-IsRising 0 epoch key (sort_epochs keys) (ground (arith, v)) (ground (arith, v))
      size (key_of-sort_epochs epoch keys ∙ free)
      (sort_epochs-IsRising keys more (ground (arith, v)))

ltb_bytes-apart : (a b : Bytes) → ltb_bytes a b ≡ true → same a b ≡ false
ltb_bytes-apart a b h = ground (arith, h, same_iff a b, compare_bytes-IsTotalOrder.self_eq a)

lookup-insert_device :
    (device : Bytes) (e : Bytes × Bytes) (keys : Entries Bytes)
    → lookup device (insert_device e keys) ≡ lookup device (e ∷ keys)
unfolding lookup insert_device
lookup-insert_device device e [] = refl
lookup-insert_device device e (f ∷ keys) = ground (
  arith,
  lookup-insert_device device e keys,
  ltb_bytes-apart f.0 e.0,
  same_iff f.0 e.0,
  same_iff f.0 device,
  same_iff e.0 device,
)

pub lookup-sort_devices :
    (device : Bytes) (keys : Entries Bytes) → lookup device (sort_devices keys) ≡ lookup device keys
unfolding lookup sort_devices
lookup-sort_devices device [] = refl
lookup-sort_devices device (e ∷ keys) =
    lookup-insert_device device e (sort_devices keys)
    ∙ ap (λ rest. if same e.0 device then some e.1 else rest) (lookup-sort_devices device keys)

insert_device-tests :
    (e : Bytes × Bytes) (keys : Entries Bytes)
    → (length (insert_device e keys) ≡ suc (length keys))
      × (verification_keys_ok (insert_device e keys) ≡ verification_keys_ok (e ∷ keys))
unfolding insert_device verification_keys_ok
insert_device-tests e [] = (refl, refl)
insert_device-tests e (f ∷ keys) =
    let (size, valid) = insert_device-tests e keys in (ground (arith, size), ground (arith, valid))

pub sort_devices-tests :
    (keys : Entries Bytes)
    → (length (sort_devices keys) ≡ length keys)
      × (verification_keys_ok (sort_devices keys) ≡ verification_keys_ok keys)
unfolding sort_devices verification_keys_ok
sort_devices-tests [] = (refl, refl)
sort_devices-tests (e ∷ keys) =
    let (size, valid) = sort_devices-tests keys in
    let (size', valid') = insert_device-tests e (sort_devices keys) in
    (ground (arith, size, size'), ground (arith, valid, valid'))

ltb_bytes-total :
    (a b : Bytes) → ltb_bytes a b ≡ false → same a b ≡ false → not (ltb_bytes b a) ≡ false
ltb_bytes-total a b h k = ground (
  arith,
  h,
  k,
  same_iff a b,
  compare_bytes-IsTotalOrder.eq_same a b,
  compare_bytes-IsTotalOrder.swap_gt a b,
)

insert_device-IsOrdered :
    (previous : Option Bytes) (device key : Bytes) (keys : Entries Bytes)
    → not_after previous device ≡ false
    → length device ≡ 16
    → length key ≡ 32
    → lookup device keys ≡ none
    → IsOrdered previous keys
    → IsOrdered previous (insert_device (device, key) keys)
unfolding insert_device lookup
insert_device-IsOrdered previous device key [] above size key_size free h =
    (above, size, key_size, tt)
insert_device-IsOrdered previous device key ((next, other) ∷ keys) above size key_size free
      (later, next_size, other_size, more) =
    elim (Bool-cases (ltb_bytes next device)) [
      | inl first ↦ rw first (
        later,
        next_size,
        other_size,
        insert_device-IsOrdered (some next) device key keys (ap not first) size key_size
            (ground (arith, free, ltb_bytes-apart next device first)) more,
      )
      | inr last ↦ rw last (
        above,
        size,
        key_size,
        (ltb_bytes-total next device last (ground (arith, free)), next_size, other_size, more),
      )
    ]

pub sort_devices-IsOrdered :
    (keys : Entries Bytes) → AreDevices keys → IsOrdered none (sort_devices keys)
unfolding sort_devices
sort_devices-IsOrdered [] h = tt
sort_devices-IsOrdered ((device, key) ∷ keys) (free, size, key_size, more) =
    insert_device-IsOrdered none device key (sort_devices keys) refl size key_size
      (lookup-sort_devices device keys ∙ free) (sort_devices-IsOrdered keys more)
