-- ===== src/Relay/Accounts/Keyrings.antt =====
-- A stored key ring stays the one of its epoch.
use yunpin_ime.Base.{◌≡◌, inl, inr, refl, subst, arith, ℕ, ◌&&◌, true, false, Option, none, some}
use yunpin_ime.Base.Tests.{if◌then◌else◌, ltb, ◌==◌, ==_iff, Bool-cases, Option-cases}
use yunpin_ime.Base.Bytes.{Bytes, same_iff, same}
use yunpin_ime.Base.Result.{Result, ok, err, fail_if, fail_if-eq-ok, >>=-eq-ok}
use yunpin_ime.Relay.Envelope.{Identity, Primitives, RelayError, decode_sealed_box_wire}
use yunpin_ime.Relay.Accounts.{
  AccountTables, Device, Enrolment, Step, created, recovered, paired, revoked, stored, keyring_of,
  keyring_box, invalid_keyring, keyring_epoch_conflict, put_keyring, store_keyring, create_account,
  recover_account, add_device, revoke_device,
}
use yunpin_ime.Relay.Accounts.Change.{Later, now, after}

keyring_box-eq-ok :
    (r : Result RelayError Bytes) {box : Bytes} → keyring_box r ≡ ok box → r ≡ ok box
keyring_box-eq-ok (ok box) h = cc
keyring_box-eq-ok (err e) h = cc

same_refl : (a : Bytes) → same a a ≡ true
same_refl a = (same_iff a a).1 refl

-- The key ring that an account and epoch have is kept by one more row of another account or epoch.
store_keyring-keeps :
    (i : Identity) (time epoch number : ℕ) (box account : Bytes) (t u : AccountTables) {c : Bytes}
    → store_keyring i time epoch box t (keyring_of i.account_id epoch t.keyrings) ≡ ok u
    → keyring_of account number t.keyrings ≡ some c
    → keyring_of account number u.keyrings ≡ some c
unfolding keyring_of
store_keyring-keeps i time epoch number box account t u {c} h k =
    elim (Option-cases (keyring_of i.account_id epoch t.keyrings)) [
      | inl missing ↦ elim (Bool-cases (same i.account_id account && epoch == number)) [
        | inl taken ↦
            let same_account : i.account_id ≡ account =
              (same_iff i.account_id account).0 (ground arith) in
            let same_epoch : epoch ≡ number = (==_iff epoch number).0 (ground arith) in
            let none_there : keyring_of account number t.keyrings ≡ none =
              subst (λ a. keyring_of a number t.keyrings ≡ none) same_account
                (subst (λ n. keyring_of i.account_id n t.keyrings ≡ none) same_epoch missing) in
            cc
        | inr other ↦ ground arith
      ]
      | inr (old, there) ↦ ground arith
    ]

store_keyring-finds :
    (i : Identity) (time epoch : ℕ) (box : Bytes) (t u : AccountTables)
    → store_keyring i time epoch box t (keyring_of i.account_id epoch t.keyrings) ≡ ok u
    → keyring_of i.account_id epoch u.keyrings ≡ some box
unfolding keyring_of
store_keyring-finds i time epoch box t u h =
    elim (Option-cases (keyring_of i.account_id epoch t.keyrings)) [
      | inl missing ↦ ground (arith, same_refl i.account_id)
      | inr (old, there) ↦ ground (arith, same_iff old box)
    ]

create_account-keyrings :
    (p : Primitives) (e : Enrolment) (account : Option Bytes) (t u : AccountTables)
    → create_account p e account t ≡ ok u
    → t.keyrings ≡ u.keyrings
unfolding create_account add_device
create_account-keyrings p e account t u h = ground arith

recover_account-keyrings :
    (p : Primitives) (account : Bytes) (e : Enrolment) (t u : AccountTables)
    → recover_account p account e t ≡ ok u
    → t.keyrings ≡ u.keyrings
unfolding recover_account add_device
recover_account-keyrings p account e t u h = ground arith

add_device-keyrings :
    (d : Device) (t u : AccountTables) → add_device d t ≡ ok u → t.keyrings ≡ u.keyrings
unfolding add_device
add_device-keyrings d t u h = ground arith

revoke_device-keyrings :
    (i : Identity) (time : ℕ) (id : Bytes) (t u : AccountTables)
    → revoke_device i time id t ≡ ok u
    → t.keyrings ≡ u.keyrings
unfolding revoke_device
revoke_device-keyrings i time id t u h = ground arith

unchanged-keeps :
    (account : Bytes) (number : ℕ) (t u : AccountTables) {c : Bytes}
    → t.keyrings ≡ u.keyrings
    → keyring_of account number t.keyrings ≡ some c
    → keyring_of account number u.keyrings ≡ some c
unchanged-keeps account number t u {c} same_rows k =
    subst (λ ks. keyring_of account number ks ≡ some c) same_rows k

module _ (p : Primitives) where
  put_keyring-stores :
      (i : Identity) (time epoch : ℕ) (wire : Bytes) (t u : AccountTables)
      → put_keyring p i time epoch wire t ≡ ok u
      → (box : Bytes) × (decode_sealed_box_wire p wire ≡ ok box)
        × (ltb epoch 1 ≡ false)
        × (store_keyring i time epoch box t (keyring_of i.account_id epoch t.keyrings) ≡ ok u)
  unfolding put_keyring
  put_keyring-stores i time epoch wire t u h =
      let (box, boxed, rest) = >>=-eq-ok (keyring_box (decode_sealed_box_wire p wire)) _ h in
      let (_, passes, written) = >>=-eq-ok (fail_if (ltb epoch 1) invalid_keyring) _ rest in
      (
        box,
        keyring_box-eq-ok (decode_sealed_box_wire p wire) boxed,
        fail_if-eq-ok (ltb epoch 1) invalid_keyring passes,
        written,
      )

  Step-keeps :
      (account : Bytes) (number : ℕ) (t u : AccountTables) {c : Bytes}
      → Step p t u
      → keyring_of account number t.keyrings ≡ some c
      → keyring_of account number u.keyrings ≡ some c
  Step-keeps account number t u (created e fresh h) k =
      unchanged-keeps account number t u (create_account-keyrings p e fresh t u h) k
  Step-keeps account number t u (recovered id e h) k =
      unchanged-keeps account number t u (recover_account-keyrings p id e t u h) k
  Step-keeps account number t u (paired d h) k =
      unchanged-keeps account number t u (add_device-keyrings d t u h) k
  Step-keeps account number t u (revoked i time id h) k =
      unchanged-keeps account number t u (revoke_device-keyrings i time id t u h) k
  Step-keeps account number t u (stored i time epoch wire h) k =
      let (box, _, _, written) = put_keyring-stores i time epoch wire t u h in
      store_keyring-keeps i time epoch number box account t u written k

  Later-keeps :
      (account : Bytes) (number : ℕ) (t u : AccountTables) {c : Bytes}
      → Later p t u
      → keyring_of account number t.keyrings ≡ some c
      → keyring_of account number u.keyrings ≡ some c
  Later-keeps account number t u now k = k
  Later-keeps account number t _ (after u v l s) k =
      Step-keeps account number u v s (Later-keeps account number t u l k)

  -- A key ring that was accepted is the one that the account has for its epoch in every later state
  -- of the tables; when any device of the account then puts a sealed box for that epoch, it succeeds
  -- and changes nothing where the box is the same, and is refused as a conflict where it is not.
  pub accepted_keyring_stays :
      (i j : Identity) (time later epoch : ℕ) (wire other again : Bytes) (t u v : AccountTables)
      → put_keyring p i time epoch wire t ≡ ok u
      → Later p u v
      → j.account_id ≡ i.account_id
      → decode_sealed_box_wire p other ≡ ok again
      → (box : Bytes) × (decode_sealed_box_wire p wire ≡ ok box)
        × (keyring_of i.account_id epoch v.keyrings ≡ some box)
        × (put_keyring p j later epoch other v
            ≡ (if same box again then ok v else err keyring_epoch_conflict))
  unfolding put_keyring
  accepted_keyring_stays i j time later epoch wire other again t u v h l same_account decoded =
      let (box, boxed, positive, written) = put_keyring-stores i time epoch wire t u h in
      let there : keyring_of i.account_id epoch v.keyrings ≡ some box =
        Later-keeps i.account_id epoch u v l (store_keyring-finds i time epoch box t u written) in
      (
        box,
        boxed,
        there,
        rw (decoded, positive, same_account, there)
            (elim (Bool-cases (same box again)) [ inl e ↦ rw e refl | inr e ↦ rw e refl ]),
      )
