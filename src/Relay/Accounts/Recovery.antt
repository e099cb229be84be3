-- ===== src/Relay/Accounts/Recovery.antt =====
-- An account can be recovered with the authentication it was created with, and with no other; a token
-- that was handed out authenticates its device.
use yunpin_ime.Base.{
  ◌≡◌, inl, inr, refl, sym, subst, arith, ℕ, true, false, Option, none, some, ◌∷◌, ◌++◌,
}
use yunpin_ime.Base.Tests.{if◌then◌else◌, Bool-cases}
use yunpin_ime.Base.Bytes.{Bytes, same_iff, same, ascii, is_empty}
use yunpin_ime.Base.Text.{trim_space}
use yunpin_ime.Base.Result.{
  ok, err, with_error, fail_if, fail_if-eq-ok, with_error-eq-ok, >>=-eq-ok,
}
use yunpin_ime.Relay.Envelope.{Identity, Primitives, decode_sized}
use yunpin_ime.Relay.Pairing.{DeviceRegistration, validate_registration}
use yunpin_ime.Relay.Accounts.{
  AccountTables, Device, Enrolment, Step, created, recovered, paired, revoked, stored,
  recovery_hash_of, invalid_recovery_authentication, random_source_unavailable, database_error,
  some_or_none, valid_id, registered, enrolled, put_keyring, is_active, create_account,
  recover_account, add_device, revoke_device, device_of_token, has_space, require_auth,
}
use yunpin_ime.Relay.Accounts.Change.{Later, now, after}

recover_account-accounts :
    (p : Primitives) (account : Bytes) (e : Enrolment) (t u : AccountTables)
    → recover_account p account e t ≡ ok u
    → t.accounts ≡ u.accounts
unfolding recover_account add_device
recover_account-accounts p account e t u h = ground arith

put_keyring-accounts :
    (p : Primitives) (i : Identity) (time epoch : ℕ) (wire : Bytes) (t u : AccountTables)
    → put_keyring p i time epoch wire t ≡ ok u
    → t.accounts ≡ u.accounts
unfolding put_keyring
put_keyring-accounts p i time epoch wire t u h = ground arith

add_device-accounts :
    (d : Device) (t u : AccountTables) → add_device d t ≡ ok u → t.accounts ≡ u.accounts
unfolding add_device
add_device-accounts d t u h = ground arith

revoke_device-accounts :
    (i : Identity) (time : ℕ) (id : Bytes) (t u : AccountTables)
    → revoke_device i time id t ≡ ok u
    → t.accounts ≡ u.accounts
unfolding revoke_device
revoke_device-accounts i time id t u h = ground arith

some_or_none-false : {A : Type 0} (o : Option A) → some_or_none o ≡ false → o ≡ none
some_or_none-false none h = refl
some_or_none-false (some a) h = cc

unchanged-keeps :
    (account : Bytes) (t u : AccountTables) {c : Bytes}
    → t.accounts ≡ u.accounts
    → recovery_hash_of account t.accounts ≡ some c
    → recovery_hash_of account u.accounts ≡ some c
unchanged-keeps account t u {c} same_rows k =
    subst (λ ks. recovery_hash_of account ks ≡ some c) same_rows k

module _ (p : Primitives) where
  -- The row that a request for a new account adds.
  create_account-adds :
      (e : Enrolment) (random_account : Option Bytes) (t u : AccountTables)
      → create_account p e random_account t ≡ ok u
      → (account secret : Bytes) × (random_account ≡ some account)
        × (decode_sized p e.recovery_authentication 32 32 ≡ some secret)
        × (recovery_hash_of account t.accounts ≡ none)
        × (u.accounts ≡ (
            record { id = account; recovery_hash = p.sha256 secret; created_at = e.now }
            ∷ t.accounts))
  unfolding create_account
  create_account-adds e random_account t u h =
      let (_, _, h1) = >>=-eq-ok (registered (validate_registration p e.registration)) _ h in
      let (secret, decoded, h2) =
        >>=-eq-ok
          (with_error invalid_recovery_authentication
            (decode_sized p e.recovery_authentication 32 32))
          _ h1 in
      let (account, drawn, h3) =
        >>=-eq-ok (with_error random_source_unavailable random_account) _ h2 in
      let (device, _, h4) = >>=-eq-ok (with_error random_source_unavailable e.random_device) _ h3 in
      let (token, _, h5) = >>=-eq-ok (with_error random_source_unavailable e.random_token) _ h4 in
      let (_, fresh, h6) =
        >>=-eq-ok (fail_if (some_or_none (recovery_hash_of account t.accounts)) database_error) _
          h5 in
      (
        account,
        secret,
        with_error-eq-ok random_source_unavailable random_account drawn,
        with_error-eq-ok invalid_recovery_authentication _ decoded,
        some_or_none-false _ (fail_if-eq-ok _ database_error fresh),
        sym (add_device-accounts _ (record t { accounts = _ }) u h6),
      )

  Step-keeps :
      (account : Bytes) (t u : AccountTables) {c : Bytes}
      → Step p t u
      → recovery_hash_of account t.accounts ≡ some c
      → recovery_hash_of account u.accounts ≡ some c
  unfolding recovery_hash_of
  Step-keeps account t u {c} (created e random h) k =
      let (fresh, secret, _, _, absent, rows) = create_account-adds e random t u h in
      subst (λ ks. recovery_hash_of account ks ≡ some c) (sym rows)
        (elim (Bool-cases (same fresh account)) [
          | inl e ↦
              let none_there : recovery_hash_of account t.accounts ≡ none =
                subst (λ a. recovery_hash_of a t.accounts ≡ none) ((same_iff fresh account).0 e)
                  absent in
              cc
          | inr e ↦ rw e k
        ])
  Step-keeps account t u (recovered id e h) k =
      unchanged-keeps account t u (recover_account-accounts p id e t u h) k
  Step-keeps account t u (paired d h) k =
      unchanged-keeps account t u (add_device-accounts d t u h) k
  Step-keeps account t u (revoked i time id h) k =
      unchanged-keeps account t u (revoke_device-accounts i time id t u h) k
  Step-keeps account t u (stored i time epoch wire h) k =
      unchanged-keeps account t u (put_keyring-accounts p i time epoch wire t u h) k

  Later-keeps :
      (account : Bytes) (t u : AccountTables) {c : Bytes}
      → Later p t u
      → recovery_hash_of account t.accounts ≡ some c
      → recovery_hash_of account u.accounts ≡ some c
  Later-keeps account t u now k = k
  Later-keeps account t _ (after u v l s) k = Step-keeps account u v s (Later-keeps account t u l k)

  create_account-hash :
      (e : Enrolment) (account secret : Bytes) (t u : AccountTables)
      → create_account p e (some account) t ≡ ok u
      → decode_sized p e.recovery_authentication 32 32 ≡ some secret
      → recovery_hash_of account u.accounts ≡ some (p.sha256 secret)
  unfolding recovery_hash_of
  create_account-hash e account secret t u h decoded =
      let (fresh, kept, drawn, kept_decoded, _, rows) =
        create_account-adds e (some account) t u h in
      let same_account : same fresh account ≡ true = (same_iff fresh account).1 cc in
      let same_secret : kept ≡ secret = cc in rw (rows, same_account, same_secret) refl

  -- A valid request to recover an account, in any later state of the tables, goes on to add the new
  -- device where it gives an authentication with the hash of the one that the account was created
  -- with, and is refused where it gives another.
  pub recover_account-create_account :
      (e f : Enrolment) (account secret given device token : Bytes)
      (registration : DeviceRegistration) (t u v : AccountTables)
      → create_account p e (some account) t ≡ ok u
      → Later p u v
      → decode_sized p e.recovery_authentication 32 32 ≡ some secret
      → valid_id account ≡ true
      → validate_registration p f.registration ≡ ok registration
      → decode_sized p f.recovery_authentication 32 32 ≡ some given
      → f.random_device ≡ some device
      → f.random_token ≡ some token
      → recover_account p account f v ≡ (
          if same (p.sha256 secret) (p.sha256 given)
          then add_device (enrolled p f registration account device token) v
          else err invalid_recovery_authentication)
  unfolding recover_account recovery_hash_of
  recover_account-create_account e f account secret given device token registration t u v h l
        decoded valid registers gave drew_device drew_token =
      let there = Later-keeps account u v l (create_account-hash e account secret t u h decoded) in
      rw (valid, registers, gave, there)
        (elim (Bool-cases (same (p.sha256 secret) (p.sha256 given))) [
          | inl k ↦ rw (k, drew_device, drew_token) refl
          | inr k ↦ rw k refl
        ])

  require_auth-add_device :
      (d : Device) (token : Bytes) (t u : AccountTables)
      → add_device d t ≡ ok u
      → d.token_hash ≡ p.sha256 token
      → is_active d ≡ true
      → is_empty token ≡ false
      → has_space token ≡ false
      → trim_space token ≡ token
      → require_auth p (ascii "Bearer " ++ token) u
        ≡ ok (record {
          id = d.id;
          account_id = d.account_id;
          ed25519_key = d.registration.ed25519_key;
        })
  unfolding require_auth add_device device_of_token same
  require_auth-add_device d token t u h hashed active full solid trimmed =
      let rows : u.devices ≡ d ∷ t.devices = ground arith in
      let found : same d.token_hash (p.sha256 token) ≡ true =
        (same_iff d.token_hash (p.sha256 token)).1 hashed in
      rw (solid, trimmed, full, rows, found, active) refl

  -- The token that is drawn for a recovered account authenticates the device that was added, where it
  -- is not empty and has no white space.
  pub require_auth-recover_account :
      (e : Enrolment) (account device token : Bytes) (registration : DeviceRegistration)
      (t u : AccountTables)
      → recover_account p account e t ≡ ok u
      → validate_registration p e.registration ≡ ok registration
      → e.random_device ≡ some device
      → e.random_token ≡ some token
      → is_empty token ≡ false
      → has_space token ≡ false
      → trim_space token ≡ token
      → require_auth p (ascii "Bearer " ++ token) u
        ≡ ok (record { id = device; account_id = account; ed25519_key = registration.ed25519_key })
  unfolding recover_account
  require_auth-recover_account e account device token registration t u h registers drew_device
        drew_token full solid trimmed =
      let added : add_device (enrolled p e registration account device token) t ≡ ok u =
        ground arith in
      require_auth-add_device (enrolled p e registration account device token) token t u added refl
        refl full solid trimmed
