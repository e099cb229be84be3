-- ===== src/Relay/Accounts/Revoked.antt =====
-- A revoked device stays out, whatever requests follow.
use yunpin_ime.Base.{
  ◌≡◌, ◌∙◌, inl, inr, refl, sym, subst, arith, ℕ, ◌&&◌, true, false, some, List, [], ◌∷◌,
}
use yunpin_ime.Base.Tests.{Bool-cases, Option-cases}
use yunpin_ime.Base.Lists.{All, drop}
use yunpin_ime.Base.Bytes.{Bytes, same_iff, same}
use yunpin_ime.Base.Text.{trim_space}
use yunpin_ime.Base.Result.{ok}
use yunpin_ime.Relay.Envelope.{Identity, Primitives}
use yunpin_ime.Relay.Accounts.{
  Device, AccountTables, has_row, is_active, revocable, revoke_rows, revoke_device, device_of_token,
  require_auth,
}
use yunpin_ime.Relay.Accounts.Change.{
  Later, now, after, no_tables, Change, none_changed, one_added, one_revoked, revoke_device-rows,
  Step-Change,
}

-- No device has the id.
abbrev IsFree : Bytes → List Device → Type 0
IsFree id ds = All (λ d. same d.id id ≡ false) ds

-- The ids of devices are distinct.
abbrev IsKeyed : List Device → Type 0
IsKeyed [] = Unit {0}
IsKeyed (d ∷ ds) = IsFree d.id ds × IsKeyed ds

-- The device has a row, and none that may be used.
abbrev IsOut : Bytes → List Device → Type 0
IsOut id ds =
    ((token : Bytes) → has_row id token ds ≡ true)
    × All (λ d. same d.id id ≡ true → is_active d ≡ false) ds

has_row-IsFree : (id token : Bytes) (ds : List Device) → has_row id token ds ≡ false → IsFree id ds
unfolding has_row
has_row-IsFree id token [] h = tt
has_row-IsFree id token (d ∷ ds) h = (ground arith, has_row-IsFree id token ds (ground arith))

module _ (i : Identity) (time : ℕ) (other : Bytes) where
  revoke_rows-IsFree :
      (id : Bytes) (ds : List Device) → IsFree id ds → IsFree id (revoke_rows i time other ds).1
  unfolding revoke_rows
  revoke_rows-IsFree id [] h = tt
  revoke_rows-IsFree id (d ∷ ds) h = elim (Bool-cases (revocable i other d)) [
    | inl e ↦ rw e (h.0, revoke_rows-IsFree id ds h.1)
    | inr e ↦ rw e (h.0, revoke_rows-IsFree id ds h.1)
  ]

  revoke_rows-IsKeyed : (ds : List Device) → IsKeyed ds → IsKeyed (revoke_rows i time other ds).1
  unfolding revoke_rows
  revoke_rows-IsKeyed [] h = tt
  revoke_rows-IsKeyed (d ∷ ds) h = elim (Bool-cases (revocable i other d)) [
    | inl e ↦ rw e (revoke_rows-IsFree d.id ds h.0, revoke_rows-IsKeyed ds h.1)
    | inr e ↦ rw e (revoke_rows-IsFree d.id ds h.0, revoke_rows-IsKeyed ds h.1)
  ]

  revoke_rows-inactive :
      (id : Bytes) (ds : List Device)
      → All (λ d. same d.id id ≡ true → is_active d ≡ false) ds
      → All (λ d. same d.id id ≡ true → is_active d ≡ false) (revoke_rows i time other ds).1
  unfolding revoke_rows
  revoke_rows-inactive id [] h = tt
  revoke_rows-inactive id (d ∷ ds) h = elim (Bool-cases (revocable i other d)) [
    | inl e ↦ rw e ((λ _. refl), revoke_rows-inactive id ds h.1)
    | inr e ↦ rw e (h.0, revoke_rows-inactive id ds h.1)
  ]

  has_row-revoke_rows :
      (id token : Bytes) (ds : List Device)
      → has_row id token (revoke_rows i time other ds).1 ≡ has_row id token ds
  unfolding revoke_rows has_row
  has_row-revoke_rows id token [] = refl
  has_row-revoke_rows id token (d ∷ ds) = elim (Bool-cases (revocable i other d)) [
    | inl e ↦ rw (e, has_row-revoke_rows id token ds) refl
    | inr e ↦ rw (e, has_row-revoke_rows id token ds) refl
  ]

  revoke_rows-absent : (ds : List Device) → IsFree other ds → (revoke_rows i time other ds).0 ≡ 0
  unfolding revoke_rows
  revoke_rows-absent [] h = refl
  revoke_rows-absent (d ∷ ds) h = ground (arith, h.0, revoke_rows-absent ds h.1)

IsFree-inactive :
    (id : Bytes) (ds : List Device)
    → IsFree id ds
    → All (λ d. same d.id id ≡ true → is_active d ≡ false) ds
IsFree-inactive id [] h = tt
IsFree-inactive id (d ∷ ds) h = ((λ e. cc), IsFree-inactive id ds h.1)

IsFree-same : (a b : Bytes) (ds : List Device) → same a b ≡ true → IsFree a ds → IsFree b ds
IsFree-same a b ds e h = subst (λ c. IsFree c ds) ((same_iff a b).0 e) h

module _ (i : Identity) (time : ℕ) (id : Bytes) where
  -- The one row that is revoked is the only one of its id.
  revoke_rows-IsOut :
      (ds : List Device)
      → IsKeyed ds
      → (revoke_rows i time id ds).0 ≡ 1
      → IsOut id (revoke_rows i time id ds).1
  unfolding revoke_rows has_row
  revoke_rows-IsOut [] h one = cc
  revoke_rows-IsOut (d ∷ ds) h one = elim (Bool-cases (revocable i id d)) [
    | inl e ↦ rw e (
      (λ token. ground arith),
      (
        (λ _. refl),
        IsFree-inactive id (revoke_rows i time id ds).1
            (revoke_rows-IsFree i time id id ds (IsFree-same d.id id ds (ground arith) h.0)),
      ),
    )
    | inr e ↦
        let count : (revoke_rows i time id ds).0 ≡ 1 = ground arith in
        let (row, out) = revoke_rows-IsOut ds h.1 count in
        rw e (
          (λ token. ground (arith, row token)),
          (
            (λ k.
                let none_left = revoke_rows-absent i time id ds (IsFree-same d.id id ds k h.0) in
                ground arith),
            out,
          ),
        )
  ]

added-IsOut :
    (id : Bytes) (d : Device) (ds : List Device)
    → has_row d.id d.token_hash ds ≡ false
    → IsOut id ds
    → IsOut id (d ∷ ds)
unfolding has_row
added-IsOut id d ds free (row, out) = (
  (λ token. ground (arith, row token)),
  (
    (λ k.
        let taken =
          subst (λ c. has_row c d.token_hash ds ≡ true) (sym ((same_iff d.id id).0 k))
            (row d.token_hash) in
        cc),
    out,
  ),
)

Change-IsKeyed : (ds es : List Device) → Change ds es → IsKeyed ds → IsKeyed es
Change-IsKeyed ds es none_changed h = h
Change-IsKeyed ds es (one_added d free) h = (has_row-IsFree d.id d.token_hash ds free, h)
Change-IsKeyed ds es (one_revoked i time id) h = revoke_rows-IsKeyed i time id ds h

Change-IsOut : (id : Bytes) (ds es : List Device) → Change ds es → IsOut id ds → IsOut id es
Change-IsOut id ds es none_changed h = h
Change-IsOut id ds es (one_added d free) h = added-IsOut id d ds free h
Change-IsOut id ds es (one_revoked i time other) (row, out) = (
  (λ token. has_row-revoke_rows i time other id token ds ∙ row token),
  revoke_rows-inactive i time other id ds out,
)

device_of_token-inactive :
    (id token_hash : Bytes) (ds : List Device) {d : Device}
    → All (λ d. same d.id id ≡ true → is_active d ≡ false) ds
    → device_of_token token_hash ds ≡ some d
    → same d.id id ≡ false
unfolding device_of_token
device_of_token-inactive id token_hash [] out h = cc
device_of_token-inactive id token_hash (e ∷ ds) {d} (inactive, out) h =
    elim (Bool-cases (same e.token_hash token_hash && is_active e)) [
      | inl found ↦ elim (Bool-cases (same e.id id)) [
        | inl k ↦ let off = inactive k in ground arith
        | inr k ↦ ground arith
      ]
      | inr other ↦ device_of_token-inactive id token_hash ds {d = d} out (ground arith)
    ]

module _ (p : Primitives) where
  Later-IsKeyed : (t u : AccountTables) → Later p t u → IsKeyed t.devices → IsKeyed u.devices
  Later-IsKeyed t u now h = h
  Later-IsKeyed t _ (after u v l s) h =
      Change-IsKeyed u.devices v.devices (Step-Change p u v s) (Later-IsKeyed t u l h)

  Later-IsOut :
      (id : Bytes) (t u : AccountTables) → Later p t u → IsOut id t.devices → IsOut id u.devices
  Later-IsOut id t u now h = h
  Later-IsOut id t _ (after u v l s) h =
      Change-IsOut id u.devices v.devices (Step-Change p u v s) (Later-IsOut id t u l h)

  -- A device that was revoked, in tables that the server made, is never authenticated again by any
  -- later state of the tables, whatever the header.
  pub revoked_stays_out :
      (i : Identity) (time : ℕ) (id header : Bytes) (t u v : AccountTables) {j : Identity}
      → Later p no_tables t
      → revoke_device i time id t ≡ ok u
      → Later p u v
      → require_auth p header v ≡ ok j
      → same j.id id ≡ false
  unfolding require_auth
  revoked_stays_out i time id header t u v {j} made h l auth =
      let (rows, one) = revoke_device-rows i time id t u h in
      let out = revoke_rows-IsOut i time id t.devices (Later-IsKeyed no_tables t made tt) one in
      let (_, still) = Later-IsOut id u v l (subst (IsOut id) (sym rows) out) in
      elim (Option-cases (device_of_token (p.sha256 (trim_space (drop 7 header))) v.devices)) [
        | inl missing ↦ ground arith
        | inr (d, found) ↦
            let other = device_of_token-inactive id _ v.devices still found in ground arith
      ]
