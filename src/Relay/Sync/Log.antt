-- ===== src/Relay/Sync/Log.antt =====
-- The rows of each device form one chain, and a request only adds to it.
use yunpin_ime.Base.{
  ◌&&◌, false, ◌⊎◌, ◌∙◌, ◌≡◌, ◌≢◌, ◌≤◌, ◌<◌, refl, arith, ap, sym, subst, inl, inr, ℕ, ◌+◌, true,
  Option, none, some, List, [], ◌∷◌,
}
use yunpin_ime.Base.Tests.{Bool-cases, Option-cases, ◌==◌}
use yunpin_ime.Base.Lists.{All}
use yunpin_ime.Base.Bytes.{Bytes, same_iff, is_empty}
use yunpin_ime.Base.Semilattice.{In, first, later}
use yunpin_ime.Base.Result.{ok, ◌>>=◌, >>=-eq-ok}
use yunpin_ime.Relay.Envelope.{Identity, DecodedEnvelope, Primitives}
use yunpin_ime.Relay.Sync.{
  Split, transact, page_limit, unique_by_seq, sort_by_seq, decode_batch, Stored, Table, Relay,
  Request, Response, accepted, rejected, seq_of, of_device, existing_hash, last_record, offer,
  offer_all, sync_envelopes, stored_row, nullable_bytes, sequence_conflict,
}

-- A NULL column is read as no bytes.
abbrev pub scan : Option Bytes → Bytes
scan none = []
scan (some h) = h

-- Each row takes the next number of its device, names the hash of the row before, and has a larger
-- cursor than every row before.
abbrev pub IsLog : List Stored → Type 0
IsLog [] = Unit {0}
IsLog (r ∷ rs) =
    (r.device_seq ≡ (last_record r.account_id r.device_id rs).0 + 1)
    × (scan r.previous_hash ≡ (last_record r.account_id r.device_id rs).1)
    × All (λ q. q.cursor < r.cursor) rs
    × IsLog rs

pub record IsTable (t : Table) : Type 0 where
  pub log : IsLog t.rows
  pub fresh : All (λ q. q.cursor < t.next) t.rows

All-lt_suc :
    (n : ℕ) (rows : List Stored) → All (λ q. q.cursor < n) rows → All (λ q. q.cursor < n + 1) rows
All-lt_suc n [] h = tt
All-lt_suc n (r ∷ rs) (h, k) = (omega (arith, h), All-lt_suc n rs k)

scan_nullable : (b : Bytes) → scan (nullable_bytes b) ≡ b
unfolding is_empty
scan_nullable [] = refl
scan_nullable (x ∷ xs) = refl

-- What one round of the loop does: it leaves the table as it is, or adds the row of the envelope at
-- the end of the device's chain.
offer-cases :
    (i : Identity) (e : DecodedEnvelope) (t : Table)
    → ((offer i e t).1 ≡ t)
      ⊎ (((offer i e t).1 ≡ record { next = t.next + 1; rows = stored_row i e t.next ∷ t.rows })
          × (seq_of e ≡ (last_record i.account_id i.id t.rows).0 + 1)
          × (e.previous_hash ≡ (last_record i.account_id i.id t.rows).1))
unfolding offer
offer-cases i e t =
    ground (arith, same_iff e.previous_hash (last_record i.account_id i.id t.rows).1)

pub offer-IsTable :
    (i : Identity) (e : DecodedEnvelope) (t : Table) → IsTable t → IsTable (offer i e t).1
offer-IsTable i e t h = elim (offer-cases i e t) [
  | inl kept ↦ subst IsTable (sym kept) h
  | inr (made, seq, hash) ↦ subst IsTable (sym made) (record {
    log = (seq, scan_nullable e.previous_hash ∙ hash, h.fresh, h.log);
    fresh = (omega arith, All-lt_suc t.next t.rows h.fresh);
  })
]

offer_all-IsTable :
    (i : Identity) (es : List DecodedEnvelope) (t : Table)
    → IsTable t
    → IsTable (offer_all i es t).1
unfolding offer_all
offer_all-IsTable i [] t h = h
offer_all-IsTable i (e ∷ es) t h = offer_all-IsTable i es (offer i e t).1 (offer-IsTable i e t h)

pub sync_envelopes-transact :
    (p : Primitives) (i : Identity) (request : Request) (relay relay' : Relay) (response : Response)
    → sync_envelopes p i request relay ≡ ok (response, relay')
    → (limit : ℕ) × (split : Split) × (page_limit request.limit ≡ some limit)
      × (transact p i request relay limit split ≡ ok (response, relay'))
unfolding sync_envelopes
sync_envelopes-transact p i request relay relay' response e =
    let (limit, checks, rest) =
      >>=-eq-ok _
        (λ l. decode_batch p i request.envelopes >>= λ d.
          transact p i request relay l (unique_by_seq (sort_by_seq d)))
        e in
    let (decoded, _, done) = >>=-eq-ok (decode_batch p i request.envelopes) _ rest in
    (limit, unique_by_seq (sort_by_seq decoded), ground arith, done)

pub transact-table :
    (p : Primitives) (i : Identity) (request : Request) (relay relay' : Relay) (response : Response)
    (limit : ℕ) (split : Split)
    → transact p i request relay limit split ≡ ok (response, relay')
    → relay'.table ≡ (offer_all i split.1 relay.table).1
unfolding transact
transact-table p i request relay relay' response limit split e = ground arith

-- An answered sync keeps the table well formed: the chains of all devices and the order of the cursors.
pub sync_envelopes-IsTable :
    (p : Primitives) (i : Identity) (request : Request) (relay relay' : Relay) (response : Response)
    → IsTable relay.table
    → sync_envelopes p i request relay ≡ ok (response, relay')
    → IsTable relay'.table
sync_envelopes-IsTable p i request relay relay' response h e =
    let (limit, split, _, done) = sync_envelopes-transact p i request relay relay' response e in
    subst IsTable (sym (transact-table p i request relay relay' response limit split done))
      (offer_all-IsTable i split.1 relay.table h)

existing-le-last :
    (account device : Bytes) (seq : ℕ) (rows : List Stored) (hash : Bytes)
    → existing_hash account device seq rows ≡ some hash
    → seq ≤ (last_record account device rows).0
unfolding existing_hash last_record
existing-le-last account device seq [] hash h = cc
existing-le-last account device seq (r ∷ rs) hash h =
    ground (arith, existing-le-last account device seq rs hash)

of_device-eq :
    (account device : Bytes) (r : Stored)
    → of_device account device r ≡ true
    → (r.account_id ≡ account) × (r.device_id ≡ device)
unfolding of_device
of_device-eq account device r h =
    ground (arith, same_iff r.account_id account, same_iff r.device_id device)

head_last :
    (account device : Bytes) (r : Stored) (rs : List Stored)
    → IsLog (r ∷ rs)
    → of_device account device r ≡ true
    → (r.device_seq ≡ (last_record account device rs).0 + 1)
      × (scan r.previous_hash ≡ (last_record account device rs).1)
head_last account device r rs (seq, hash, _, _) own =
    let (a, d) = of_device-eq account device r own in
    (
      subst (λ x. r.device_seq ≡ (last_record x device rs).0 + 1) a
          (subst (λ x. r.device_seq ≡ (last_record r.account_id x rs).0 + 1) d seq),
      subst (λ x. scan r.previous_hash ≡ (last_record x device rs).1) a
          (subst (λ x. scan r.previous_hash ≡ (last_record r.account_id x rs).1) d hash),
    )

last-existing :
    (account device : Bytes) (rows : List Stored)
    → IsLog rows
    → 0 < (last_record account device rows).0
    → existing_hash account device (last_record account device rows).0 rows
      ≡ some (last_record account device rows).1
unfolding existing_hash last_record
last-existing account device [] h k = ground arith
last-existing account device (r ∷ rs) h k =
    ground (arith, last-existing account device rs h.3, head_last account device r rs h)

-- Later rows hide no earlier one.
existing_later :
    (account device : Bytes) (seq : ℕ) (r : Stored) (rs : List Stored) (hash : Bytes)
    → IsLog (r ∷ rs)
    → existing_hash account device seq rs ≡ some hash
    → existing_hash account device seq (r ∷ rs) ≡ some hash
unfolding existing_hash
existing_later account device seq r rs hash h e =
    ground (arith, existing-le-last account device seq rs hash, head_last account device r rs h)

last_later :
    (account device : Bytes) (r : Stored) (rs : List Stored)
    → IsLog (r ∷ rs)
    → (last_record account device rs).0 ≤ (last_record account device (r ∷ rs)).0
unfolding last_record
last_later account device r rs h = ground (arith, head_last account device r rs h)

zero_last :
    (account device : Bytes) (rows : List Stored)
    → IsLog rows
    → (last_record account device rows).0 ≡ 0
    → (last_record account device rows).1 ≡ []
unfolding last_record
zero_last account device [] h e = refl
zero_last account device (r ∷ rs) h e =
    ground (arith, zero_last account device rs h.3, head_last account device r rs h)

chained_head :
    (r : Stored) (rs : List Stored)
    → IsLog (r ∷ rs)
    → ((r.device_seq ≡ 1) × (scan r.previous_hash ≡ []))
      ⊎ ((n : ℕ) × (0 < n)
          × (r.device_seq ≡ n + 1)
          × (existing_hash r.account_id r.device_id n (r ∷ rs) ≡ some (scan r.previous_hash)))
chained_head r rs h =
    let account : Bytes = r.account_id in
    let device : Bytes = r.device_id in
    elim (Bool-cases ((last_record account device rs).0 == 0)) [
      | inl zero_lem ↦
          inl (ground (arith, h.0), h.1 ∙ zero_last account device rs h.3 (ground arith))
      | inr positive ↦
          let some_last : 0 < (last_record account device rs).0 = ground arith in
          let found = last-existing account device rs h.3 some_last in
          inr (
            (last_record account device rs).0,
            some_last,
            h.0,
            existing_later account device _ r rs _ h (found ∙ ap some (sym h.1)),
          )
    ]

-- In such a log the first row of a device names no hash, and every later one names the hash that is
-- stored for the number before its own.
pub IsLog-chained :
    (rows : List Stored) (r : Stored)
    → IsLog rows
    → In r rows
    → ((r.device_seq ≡ 1) × (scan r.previous_hash ≡ []))
      ⊎ ((n : ℕ) × (0 < n)
          × (r.device_seq ≡ n + 1)
          × (existing_hash r.account_id r.device_id n rows ≡ some (scan r.previous_hash)))
IsLog-chained [] r h x = elim x [ ]
IsLog-chained (q ∷ rows) r h (first e) =
    subst
      (λ x.
        ((x.device_seq ≡ 1) × (scan x.previous_hash ≡ []))
        ⊎ ((n : ℕ) × (0 < n)
            × (x.device_seq ≡ n + 1)
            × (existing_hash x.account_id x.device_id n (q ∷ rows) ≡ some (scan x.previous_hash))))
      (sym e) (chained_head q rows h)
IsLog-chained (q ∷ rows) r h (later k) = elim (IsLog-chained rows r h.3 k) [
  | inl one ↦ inl one
  | inr (n, positive, seq, found) ↦
      inr (n, positive, seq, existing_later r.account_id r.device_id n q rows _ h found)
]

accepted-stored :
    (i : Identity) (e : DecodedEnvelope) (t : Table)
    → (offer i e t).0 ≡ accepted (seq_of e)
    → existing_hash i.account_id i.id (seq_of e) (offer i e t).1.rows ≡ some e.record_hash
unfolding offer existing_hash of_device
accepted-stored i e t h = elim (Option-cases (existing_hash i.account_id i.id (seq_of e) t.rows)) [
  | inl missing ↦ ground (arith, same_iff i.account_id i.account_id, same_iff i.id i.id)
  | inr (hash, found) ↦ ground (arith, same_iff hash e.record_hash)
]

-- Rounds of any devices, one after another.
abbrev pub offered : List (Identity × DecodedEnvelope) → Table → Table
offered [] t = t
offered ((j, e) ∷ rounds) t = offered rounds (offer j e t).1

stored_row-other :
    (j : Identity) (e : DecodedEnvelope) (t : Table) (account device : Bytes) (seq : ℕ)
    {hash : Bytes}
    → seq_of e ≡ (last_record j.account_id j.id t.rows).0 + 1
    → existing_hash account device seq t.rows ≡ some hash
    → of_device account device (stored_row j e t.next) && seq_of e == seq ≡ false
stored_row-other j e t account device seq {hash} last h =
    elim (Bool-cases (of_device account device (stored_row j e t.next))) [
      | inl own ↦
          let (a, d) = of_device-eq account device (stored_row j e t.next) own in
          let known : existing_hash j.account_id j.id seq t.rows ≡ some hash =
            subst (λ x. existing_hash x j.id seq t.rows ≡ some hash) (sym a)
              (subst (λ x. existing_hash account x seq t.rows ≡ some hash) (sym d) h) in
          ground (arith, existing-le-last j.account_id j.id seq t.rows hash known, last)
      | inr other ↦ ground arith
    ]

existing_hash-offer :
    (j : Identity) (e : DecodedEnvelope) (t : Table) (account device : Bytes) (seq : ℕ)
    {hash : Bytes}
    → existing_hash account device seq t.rows ≡ some hash
    → existing_hash account device seq (offer j e t).1.rows ≡ some hash
unfolding existing_hash
existing_hash-offer j e t account device seq {hash} h = elim (offer-cases j e t) [
  | inl kept ↦ subst (λ u. existing_hash account device seq u.rows ≡ some hash) (sym kept) h
  | inr (made, last, _) ↦
      subst (λ u. existing_hash account device seq u.rows ≡ some hash) (sym made)
        (rw (stored_row-other j e t account device seq last h) h)
]

existing_hash-offered :
    (rounds : List (Identity × DecodedEnvelope)) (t : Table) (account device : Bytes) (seq : ℕ)
    {hash : Bytes}
    → existing_hash account device seq t.rows ≡ some hash
    → existing_hash account device seq (offered rounds t).rows ≡ some hash
existing_hash-offered [] t account device seq h = h
existing_hash-offered ((j, e) ∷ rounds) t account device seq h =
    existing_hash-offered rounds (offer j e t).1 account device seq
      (existing_hash-offer j e t account device seq h)

-- An envelope that one round accepted is accepted by every later round that offers it again, whatever
-- rounds of whatever devices came between, and adds no row; an envelope of the same number with
-- another record is then refused as a conflict.
pub offer_again :
    (i : Identity) (e other : DecodedEnvelope) (between : List (Identity × DecodedEnvelope))
    (t : Table)
    → (offer i e t).0 ≡ accepted (seq_of e)
    → seq_of other ≡ seq_of e
    → other.record_hash ≢ e.record_hash
    → (offer i e (offered between (offer i e t).1)
        ≡ (accepted (seq_of e), offered between (offer i e t).1))
      × (offer i other (offered between (offer i e t).1)
          ≡ (rejected (seq_of e) sequence_conflict, offered between (offer i e t).1))
unfolding offer
offer_again i e other between t h k d =
    let stored =
      existing_hash-offered between (offer i e t).1 i.account_id i.id (seq_of e)
        (accepted-stored i e t h) in
    ground (arith, same_iff e.record_hash e.record_hash, same_iff e.record_hash other.record_hash)
