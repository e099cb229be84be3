-- ===== src/Relay/Accounts/Change.antt =====
-- The requests that change the tables, in order, and what each does to the table of devices.
use yunpin_ime.Base.{◌≡◌, sym, subst, arith, ℕ, not, false, Option, List, [], ◌∷◌}
use yunpin_ime.Base.Bytes.{Bytes, same}
use yunpin_ime.Base.Result.{ok, fail_if, with_error, >>=-eq-ok, fail_if-eq-ok, ◌>>◌}
use yunpin_ime.Relay.Envelope.{Identity, Primitives, decode_sized}
use yunpin_ime.Relay.Pairing.{validate_registration}
use yunpin_ime.Relay.Accounts.{
  Device, AccountTables, Enrolment, Step, created, recovered, paired, revoked, stored, has_row,
  add_device, revoke_rows, revoke_device, create_account, recover_account, put_keyring, registered,
  database_error, invalid_recovery_authentication, random_source_unavailable, recovery_hash_of,
  valid_id, some_or_none, account_not_found,
}

-- The requests between two states of the tables.
pub data Later (p : Primitives) (t : AccountTables) : AccountTables → Type 0 where
  now : Later p t t
  after : (u v : AccountTables) → Later p t u → Step p u v → Later p t v

abbrev pub no_tables : AccountTables
no_tables = record { accounts = []; devices = []; keyrings = [] }

-- What a request does to the table of devices.
pub data Change (ds : List Device) : List Device → Type 0 where
  none_changed : Change ds ds
  one_added : (d : Device) → has_row d.id d.token_hash ds ≡ false → Change ds (d ∷ ds)
  one_revoked : (i : Identity) (time : ℕ) (id : Bytes) → Change ds (revoke_rows i time id ds).1

add_device-Change :
    (d : Device) (t u : AccountTables) → add_device d t ≡ ok u → Change t.devices u.devices
unfolding add_device
add_device-Change d t u h =
    let (_, passes, rest) =
      >>=-eq-ok (fail_if (has_row d.id d.token_hash t.devices) database_error) _ h in
    subst (Change t.devices) (ground arith) (one_added d (fail_if-eq-ok _ database_error passes))

pub revoke_device-rows :
    (i : Identity) (time : ℕ) (id : Bytes) (t u : AccountTables)
    → revoke_device i time id t ≡ ok u
    → (u.devices ≡ (revoke_rows i time id t.devices).1) × ((revoke_rows i time id t.devices).0 ≡ 1)
unfolding revoke_device
revoke_device-rows i time id t u h = (ground arith, ground arith)

create_account-Change :
    (p : Primitives) (e : Enrolment) (account : Option Bytes) (t u : AccountTables)
    → create_account p e account t ≡ ok u
    → Change t.devices u.devices
unfolding create_account
create_account-Change p e account t u h =
    let (_, _, h1) = >>=-eq-ok (registered (validate_registration p e.registration)) _ h in
    let (_, _, h2) =
      >>=-eq-ok
        (with_error invalid_recovery_authentication
          (decode_sized p e.recovery_authentication 32 32))
        _ h1 in
    let (fresh, _, h3) = >>=-eq-ok (with_error random_source_unavailable account) _ h2 in
    let (device, _, h4) = >>=-eq-ok (with_error random_source_unavailable e.random_device) _ h3 in
    let (token, _, h5) = >>=-eq-ok (with_error random_source_unavailable e.random_token) _ h4 in
    let (_, _, h6) =
      >>=-eq-ok (fail_if (some_or_none (recovery_hash_of fresh t.accounts)) database_error) _ h5 in
    add_device-Change _ (record t { accounts = _ }) u h6

recover_account-Change :
    (p : Primitives) (account : Bytes) (e : Enrolment) (t u : AccountTables)
    → recover_account p account e t ≡ ok u
    → Change t.devices u.devices
unfolding recover_account
recover_account-Change p account e t u h =
    let (_, _, h1) =
      >>=-eq-ok
        (fail_if (not (valid_id account)) account_not_found
          >> registered (validate_registration p e.registration))
        _ h in
    let (authentication, _, h2) =
      >>=-eq-ok
        (with_error invalid_recovery_authentication
          (decode_sized p e.recovery_authentication 32 32))
        _ h1 in
    let (expected, _, h3) =
      >>=-eq-ok (with_error invalid_recovery_authentication (recovery_hash_of account t.accounts)) _
        h2 in
    let (_, _, h4) =
      >>=-eq-ok
        (fail_if (not (same expected (p.sha256 authentication))) invalid_recovery_authentication
          >> with_error random_source_unavailable e.random_device)
        _ h3 in
    let (_, _, h5) = >>=-eq-ok (with_error random_source_unavailable e.random_token) _ h4 in
    add_device-Change _ t u h5

put_keyring-devices :
    (p : Primitives) (i : Identity) (time epoch : ℕ) (wire : Bytes) (t u : AccountTables)
    → put_keyring p i time epoch wire t ≡ ok u
    → t.devices ≡ u.devices
unfolding put_keyring
put_keyring-devices p i time epoch wire t u h = ground arith

pub Step-Change : (p : Primitives) (t u : AccountTables) → Step p t u → Change t.devices u.devices
Step-Change p t u (created e account h) = create_account-Change p e account t u h
Step-Change p t u (recovered account e h) = recover_account-Change p account e t u h
Step-Change p t u (paired d h) = add_device-Change d t u h
Step-Change p t u (revoked i time id h) =
    subst (Change t.devices) (sym (revoke_device-rows i time id t u h).0) (one_revoked i time id)
Step-Change p t u (stored i time epoch wire h) =
    subst (Change t.devices) (put_keyring-devices p i time epoch wire t u h) none_changed
