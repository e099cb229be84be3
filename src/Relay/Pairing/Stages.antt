-- ===== src/Relay/Pairing/Stages.antt =====
-- A pairing moves through its stages in order, and is claimed at most once, with its secret.
use yunpin_ime.Base.{
  ◌≡◌, ◌⊎◌, ◌<◌, inl, inr, refl, sym, subst, arith, ℕ, ◌+◌, Bool, true, Option, none, some, List,
  [], ◌∷◌,
}
use yunpin_ime.Base.Tests.{Bool-cases, Option-cases}
use yunpin_ime.Base.Bytes.{Bytes, same_iff}
use yunpin_ime.Base.Result.{with_error, ok, err, >>=-eq-ok}
use yunpin_ime.Relay.Envelope.{Identity, Primitives, decode_sealed_box_wire}
use yunpin_ime.Relay.Pairing.{
  Stage, created, joined, approved, claimed, Pairing, PairingTables, PairingError,
  invalid_or_expired_pairing, DeviceRegistration, update, approved_row, validate_registration,
  join_pairing, approve_pairing, claim_pairing, claim_row, claimable, claimed_device, joinable,
  join_row, one_affected, keyring_or_invalid, random_source_unavailable, pairing_not_ready,
  approvable, approve_row,
}

abbrev pub rank : Stage → ℕ
rank created = 0
rank joined = 1
rank approved = 2
rank claimed = 3

-- Row by row, nothing changes or the next stage is reached; the pairing stays the same one.
abbrev pub Advances : List Pairing → List Pairing → Type 0
Advances [] [] = Unit {0}
Advances [] (q ∷ qs) = ⊥
Advances (r ∷ rs) [] = ⊥
Advances (r ∷ rs) (q ∷ qs) =
    (q.id ≡ r.id)
    × (q.account_id ≡ r.account_id)
    × (q.secret_hash ≡ r.secret_hash)
    × ((q ≡ r) ⊎ (rank q.stage ≡ rank r.stage + 1))
    × Advances rs qs

update-Advances :
    (where_row : Pairing → Bool) (set : Pairing → Pairing) (rows : List Pairing)
    → ((r : Pairing)
        → where_row r ≡ true
        → ((set r).id ≡ r.id)
          × ((set r).account_id ≡ r.account_id)
          × ((set r).secret_hash ≡ r.secret_hash)
          × (rank (set r).stage ≡ rank r.stage + 1))
    → Advances rows (update where_row set rows).1
unfolding update
update-Advances where_row set [] h = tt
update-Advances where_row set (r ∷ rows) h = elim (Bool-cases (where_row r)) [
  | inl e ↦
      rw e ((h r e).0, (h r e).1, (h r e).2, inr (h r e).3, update-Advances where_row set rows h)
  | inr e ↦ rw e (refl, refl, refl, inl refl, update-Advances where_row set rows h)
]

no_approved :
    (id : Bytes) (rows : List Pairing)
    → approved_row id (update (claimable id) claim_row rows).1 ≡ none
unfolding update approved_row
no_approved id [] = refl
no_approved id (r ∷ rows) = ground (arith, no_approved id rows)

one_affected-eq-ok :
    (failure : PairingError) (u : ℕ × List Pairing) (t t' : PairingTables)
    → one_affected failure u t ≡ ok t'
    → t'.pairings ≡ u.1
one_affected-eq-ok failure u t t' e = ground arith

module _ (p : Primitives) where
  -- A claim adds the device of an approved, unexpired pairing whose secret was given, under the given
  -- token; a second claim of that pairing is refused, whatever time, secret and token it comes with.
  pub claim_pairing_once :
      (now later : ℕ) (id secret guess token : Bytes) (other : Option Bytes) (t t' : PairingTables)
      → claim_pairing p now id secret (some token) t ≡ ok t'
      → ((r : Pairing) × (approved_row id t.pairings ≡ some r)
          × (now < r.expires_at)
          × (r.secret_hash ≡ p.sha256 secret)
          × (t'.devices ≡ claimed_device p r token ∷ t.devices))
        × (claim_pairing p later id guess other t' ≡ err invalid_or_expired_pairing)
  unfolding claim_pairing
  claim_pairing_once now later id secret guess token other t t' e =
      elim (Option-cases (approved_row id t.pairings)) [
        | inl missing ↦ ground arith
        | inr (r, found) ↦ (
          (
            r,
            found,
            ground arith,
            ground (arith, same_iff r.secret_hash (p.sha256 secret)),
            ground arith,
          ),
          ground (arith, no_approved id t.pairings),
        )
      ]

  joined_rows :
      (now : ℕ) (id secret : Bytes) (input : DeviceRegistration) (t t' : PairingTables)
      → join_pairing p now id secret input t ≡ ok t'
      → Advances t.pairings t'.pairings
  unfolding join_pairing
  joined_rows now id secret input t t' e =
      let (registration, _, one) = >>=-eq-ok (validate_registration p input) _ e in
      subst (Advances t.pairings) (sym (one_affected-eq-ok invalid_or_expired_pairing _ t t' one)) (
        update-Advances (joinable p now id secret) (join_row registration) t.pairings
          λ r h. (refl, refl, refl, ground arith))

  approved_rows :
      (i : Identity) (now : ℕ) (id wire : Bytes) (random : Option Bytes) (t t' : PairingTables)
      → approve_pairing p i now id wire random t ≡ ok t'
      → Advances t.pairings t'.pairings
  unfolding approve_pairing
  approved_rows i now id wire random t t' e =
      let (keyring, _, rest) = >>=-eq-ok (keyring_or_invalid (decode_sealed_box_wire p wire)) _ e in
      let (device, _, one) =
        >>=-eq-ok (with_error random_source_unavailable random)
          (λ device.
            one_affected pairing_not_ready
              (update (approvable i now id) (approve_row device keyring) t.pairings) t)
          rest in
      subst (Advances t.pairings) (sym (one_affected-eq-ok pairing_not_ready _ t t' one)) (
        update-Advances (approvable i now id) (approve_row device keyring) t.pairings
          λ r h. (refl, refl, refl, ground arith))

  claimed_rows :
      (now : ℕ) (id secret : Bytes) (random : Option Bytes) (t t' : PairingTables)
      → claim_pairing p now id secret random t ≡ ok t'
      → Advances t.pairings t'.pairings
  unfolding claim_pairing
  claimed_rows now id secret random t t' e =
      let rows : t'.pairings ≡ (update (claimable id) claim_row t.pairings).1 = ground arith in
      subst (Advances t.pairings) (sym rows) (
        update-Advances (claimable id) claim_row t.pairings λ r h. (refl, refl, refl, ground arith))

  -- Joining, approving and claiming move pairings by one stage at a time, never back.
  pub pairing-Advances :
      (i : Identity) (now : ℕ) (id secret wire : Bytes) (input : DeviceRegistration)
      (random : Option Bytes) (t t' : PairingTables)
      → (join_pairing p now id secret input t ≡ ok t')
        ⊎ (approve_pairing p i now id wire random t ≡ ok t')
        ⊎ (claim_pairing p now id secret random t ≡ ok t')
      → Advances t.pairings t'.pairings
  pairing-Advances i now id secret wire input random t t' h = elim h [
    | inl e ↦ joined_rows now id secret input t t' e
    | inr (inl e) ↦ approved_rows i now id wire random t t' e
    | inr (inr e) ↦ claimed_rows now id secret random t t' e
  ]
