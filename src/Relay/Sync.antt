-- ===== src/Relay/Sync.antt =====
-- sync/internal/server/server.go: `syncEnvelopes`. The table of envelopes is a list, the newest row
-- first: its primary key counts up by AUTOINCREMENT, and no statement deletes a row. An error rolls
-- the transaction back, so a failed request has no new state.
pub mod Log
pub mod Page
pub mod Delivery
use yunpin_ime.Base.{
  ℕ, ◌+◌, Bool, true, false, not, ◌&&◌, ◌||◌, Option, none, some, List, [], ◌∷◌, ◌++◌, map,
}
use yunpin_ime.Base.Tests.{ltb, leb, ◌==◌, if◌then◌else◌}
use yunpin_ime.Base.Lists.{length, take}
use yunpin_ime.Base.Int.{ℤ, pos, negsuc, ltb_int}
use yunpin_ime.Base.Bytes.{Bytes, same, is_empty}
use yunpin_ime.Base.Text.{hex_encode}
use yunpin_ime.Base.Result.{Result, ok, err, ◌>>=◌, ◌>>◌, fail_if, with_error}
use mathlib.Core.List.{reverse}
use yunpin_ime.Relay.Envelope.{
  Identity, Envelope, DecodedEnvelope, RelayError, Primitives, invalid_sync_batch, invalid_limit,
  invalid_cursor, database_error, padding_bucket, max_ciphertext, badly_padded, validate_envelope,
}

-- A row of `envelopes`; a NULL previous hash is `none`.
pub record Stored : Type 0 where
  pub cursor : ℕ
  pub account_id : Bytes
  pub device_id : Bytes
  pub device_seq : ℕ
  pub version : ℕ
  pub object_id : Bytes
  pub key_epoch : ℕ
  pub previous_hash : Option Bytes
  pub nonce : Bytes
  pub ciphertext : Bytes
  pub signature : Bytes
  pub record_hash : Bytes

-- The columns of `devices` and `keyrings` that a sync reads or writes.
pub record DeviceRow : Type 0 where
  pub id : Bytes
  pub account_id : Bytes
  pub ack_cursor : ℤ

pub record KeyringRow : Type 0 where
  pub account_id : Bytes
  pub epoch : ℕ

-- `next` is the key that AUTOINCREMENT gives next.
pub record Table : Type 0 where
  pub next : ℕ
  pub rows : List Stored

pub record Relay : Type 0 where
  pub table : Table
  pub devices : List DeviceRow
  pub keyrings : List KeyringRow

pub data Code : Type 0 where
  sequence_conflict : Code
  sequence_gap : Code
  previous_hash_mismatch : Code

pub data Verdict : Type 0 where
  accepted : ℕ → Verdict
  rejected : ℕ → Code → Verdict

pub record Request : Type 0 where
  pub cursor : ℤ
  pub ack_cursor : ℤ
  pub limit : ℤ
  pub envelopes : List Envelope

pub record Response : Type 0 where
  pub verdicts : List Verdict
  pub envelopes : List Envelope
  pub next_cursor : ℤ
  pub has_more : Bool
  pub current_key_epoch : ℕ

abbrev pub max_upload_batch : ℕ
max_upload_batch = 256

abbrev pub maximum_sync_limit : ℕ
maximum_sync_limit = 256

abbrev pub seq_of : DecodedEnvelope → ℕ
seq_of e = e.envelope.device_seq

-- `sort.SliceStable` by sequence number.
unfoldable pub insert_by_seq : DecodedEnvelope → List DecodedEnvelope → List DecodedEnvelope
insert_by_seq e [] = e ∷ []
insert_by_seq e (x ∷ xs) =
    let rest = insert_by_seq e xs in if leb (seq_of e) (seq_of x) then e ∷ x ∷ xs else x ∷ rest

unfoldable pub sort_by_seq : List DecodedEnvelope → List DecodedEnvelope
unfolding insert_by_seq
sort_by_seq [] = []
sort_by_seq (e ∷ es) = insert_by_seq e (sort_by_seq es)

abbrev pub Split : Type 0
Split = List Verdict × List DecodedEnvelope

-- The end of a run of equal numbers.
abbrev pub close_run : DecodedEnvelope → Bool → Split → Split
close_run start conflict (batch_rejected, unique) =
    if conflict
    then (rejected (seq_of start) sequence_conflict ∷ batch_rejected, unique)
    else (batch_rejected, start ∷ unique)

unfoldable pub runs : DecodedEnvelope → Bool → List DecodedEnvelope → Split
runs start conflict [] = close_run start conflict ([], [])
runs start conflict (e ∷ es) = elim (seq_of e == seq_of start) [
  | true ↦ runs start (conflict || not (same e.record_hash start.record_hash)) es
  | false ↦ close_run start conflict (runs e false es)
]

unfoldable pub unique_by_seq : List DecodedEnvelope → Split
unfolding runs
unique_by_seq [] = ([], [])
unique_by_seq (e ∷ es) = runs e false es

unfoldable pub of_device : Bytes → Bytes → Stored → Bool
of_device account device r = same r.account_id account && same r.device_id device

-- SELECT record_hash … WHERE account_id = ? AND device_id = ? AND device_seq = ?
unfoldable pub existing_hash : Bytes → Bytes → ℕ → List Stored → Option Bytes
existing_hash account device seq [] = none
existing_hash account device seq (r ∷ rs) =
    if of_device account device r && r.device_seq == seq
    then some r.record_hash
    else existing_hash account device seq rs

abbrev pub larger_seq : ℕ × Bytes → ℕ × Bytes → ℕ × Bytes
larger_seq a b = if ltb a.0 b.0 then b else a

-- SELECT device_seq, record_hash … ORDER BY device_seq DESC LIMIT 1; without a row, 0 and nil.
unfoldable pub last_record : Bytes → Bytes → List Stored → ℕ × Bytes
last_record account device [] = (0, [])
last_record account device (r ∷ rs) =
    let rest = last_record account device rs in
    if of_device account device r then larger_seq (r.device_seq, r.record_hash) rest else rest

abbrev pub nullable_bytes : Bytes → Option Bytes
nullable_bytes value = if is_empty value then none else some value

abbrev pub stored_row : Identity → DecodedEnvelope → ℕ → Stored
stored_row i e cursor = record {
  cursor = cursor;
  account_id = i.account_id;
  device_id = i.id;
  device_seq = seq_of e;
  version = e.envelope.version;
  object_id = e.object_id;
  key_epoch = e.envelope.key_epoch;
  previous_hash = nullable_bytes e.previous_hash;
  nonce = e.nonce;
  ciphertext = e.ciphertext;
  signature = e.signature;
  record_hash = e.record_hash;
}

abbrev pub judge_new : Identity → DecodedEnvelope → ℕ × Bytes → Table → Verdict × Table
judge_new i e (last_seq, last_hash) t =
    if not (seq_of e == last_seq + 1)
    then (
      rejected (seq_of e) (if leb (seq_of e) last_seq then sequence_conflict else sequence_gap),
      t,
    )
    else if not (same e.previous_hash last_hash)
    then (rejected (seq_of e) previous_hash_mismatch, t)
    else (accepted (seq_of e), record { next = t.next + 1; rows = stored_row i e t.next ∷ t.rows })

-- One round of the loop over the unique envelopes.
unfoldable pub offer : Identity → DecodedEnvelope → Table → Verdict × Table
unfolding existing_hash last_record
offer i e t = elim (existing_hash i.account_id i.id (seq_of e) t.rows) [
  | some existing ↦ (
    if same existing e.record_hash
        then accepted (seq_of e)
        else rejected (seq_of e) sequence_conflict,
    t,
  )
  | none ↦ judge_new i e (last_record i.account_id i.id t.rows) t
]

unfoldable pub offer_all : Identity → List DecodedEnvelope → Table → List Verdict × Table
unfolding offer
offer_all i [] t = ([], t)
offer_all i (e ∷ es) t =
    let (verdict, t') = offer i e t in
    let (verdicts, t'') = offer_all i es t' in (verdict ∷ verdicts, t'')

-- SELECT COALESCE(MAX(cursor), 0) FROM envelopes WHERE account_id = ?
unfoldable pub account_max_cursor : Bytes → List Stored → ℕ
account_max_cursor account [] = 0
account_max_cursor account (r ∷ rs) =
    let rest = account_max_cursor account rs in
    if same r.account_id account && ltb rest r.cursor then r.cursor else rest

-- UPDATE devices SET ack_cursor = CASE WHEN ack_cursor < ? THEN ? ELSE ack_cursor END
unfoldable pub raise_ack : Identity → ℤ → List DeviceRow → List DeviceRow
raise_ack i ack [] = []
raise_ack i ack (d ∷ ds) =
    (if same d.id i.id && same d.account_id i.account_id && ltb_int d.ack_cursor ack
      then record d { ack_cursor = ack }
      else d)
    ∷ raise_ack i ack ds

-- … WHERE account_id = ? AND cursor > ?, the newest row first.
unfoldable pub later_rows : Bytes → ℤ → List Stored → List Stored
later_rows account cursor [] = []
later_rows account cursor (r ∷ rs) =
    let rest = later_rows account cursor rs in
    if same r.account_id account && ltb_int cursor (pos r.cursor) then r ∷ rest else rest

abbrev pub bad_ciphertext : Bytes → Bool
bad_ciphertext c =
    ltb (length c) (padding_bucket + 16) || ltb max_ciphertext (length c) || badly_padded c

abbrev pub cons_row : Stored → Option (List Stored × Bool) → Option (List Stored × Bool)
cons_row r none = none
cons_row r (some (rows, more)) = some (r ∷ rows, more)

-- The loop over the selected rows: `n` rows of `bytes` bytes of ciphertext are out.
unfoldable pub page : ℕ → ℕ → ℕ → List Stored → Option (List Stored × Bool)
page limit n bytes [] = some ([], false)
page limit n bytes (r ∷ rs) =
    let size = length r.ciphertext in
    let rest = page limit (n + 1) (bytes + size) rs in
    if bad_ciphertext r.ciphertext
    then none
    else if leb limit n || ltb 0 n && ltb max_ciphertext (bytes + size)
    then some ([], true)
    else cons_row r rest

unfoldable pub last_cursor : ℤ → List Stored → ℤ
last_cursor cursor [] = cursor
last_cursor cursor (r ∷ rs) = last_cursor (pos r.cursor) rs

-- SELECT COALESCE(MAX(epoch), 0) FROM keyrings WHERE account_id = ?
unfoldable pub current_epoch : Bytes → List KeyringRow → ℕ
current_epoch account [] = 0
current_epoch account (k ∷ ks) =
    let rest = current_epoch account ks in
    if same k.account_id account && ltb rest k.epoch then k.epoch else rest

-- The limit of a page: 0 stands for the default.
unfoldable pub page_limit : ℤ → Option ℕ
page_limit (negsuc n) = none
page_limit (pos n) = if n == 0 then some 256 else if ltb maximum_sync_limit n then none else some n

abbrev pub is_negative : ℤ → Bool
is_negative a = ltb_int a (pos 0)

module _ (p : Primitives) where
  unfoldable pub decode_batch : Identity → List Envelope → Result RelayError (List DecodedEnvelope)
  unfolding validate_envelope
  decode_batch i [] = ok []
  decode_batch i (e ∷ es) =
      let rest = decode_batch i es in validate_envelope p i e >>= λ d. rest >>= λ ds. ok (d ∷ ds)

  -- The transport form of a row.
  abbrev pub outgoing : Stored → Envelope
  outgoing r = record {
    version = r.version;
    device_id = r.device_id;
    device_seq = r.device_seq;
    object_id = hex_encode r.object_id;
    key_epoch = r.key_epoch;
    previous_hash = elim r.previous_hash [ none ↦ [] | some h ↦ p.encode_base64 h ];
    nonce = p.encode_base64 r.nonce;
    ciphertext = p.encode_base64 r.ciphertext;
    signature = p.encode_base64 r.signature;
    cursor = pos r.cursor;
  }

  -- The transaction, for the unique envelopes and the rejections that came before it.
  unfoldable pub transact :
      Identity → Request → Relay → ℕ → Split → Result RelayError (Response × Relay)
  transact i request relay limit (batch_rejected, unique) =
      let (verdicts, table) = offer_all i unique relay.table in
      let most = pos (account_max_cursor i.account_id table.rows) in
      fail_if (ltb_int most request.cursor || ltb_int most request.ack_cursor) invalid_cursor
      >> with_error database_error (
          page limit 0 0
            (take (limit + 1) (reverse (later_rows i.account_id request.cursor table.rows))))
      >>= λ (out, more). ok (
        record {
          verdicts = batch_rejected ++ verdicts;
          envelopes = map outgoing out;
          next_cursor = last_cursor request.cursor out;
          has_more = more;
          current_key_epoch = current_epoch i.account_id relay.keyrings;
        },
        record relay { table = table; devices = raise_ack i request.ack_cursor relay.devices },
      )

  unfoldable pub sync_envelopes : Identity → Request → Relay → Result RelayError (Response × Relay)
  sync_envelopes i request relay =
      fail_if
        (is_negative request.cursor
          || is_negative request.ack_cursor
          || ltb max_upload_batch (length request.envelopes))
        invalid_sync_batch
      >> with_error invalid_limit (page_limit request.limit)
      >>= λ limit. decode_batch i request.envelopes >>= λ decoded.
          transact i request relay limit (unique_by_seq (sort_by_seq decoded))
