-- ===== src/LocalStore/Store/Sound.antt =====
-- The invariant of the tables: every row opens, to a record of its object that is ready to merge.
use yunpin_ime.Base.{
  inl, inr, sym, subst, ◌∙◌, ℕ, ◌+◌, ◌≡◌, ◌≤◌, refl, Bool, true, false, Option, none, some, List,
  [], ◌∷◌, arith,
}
use yunpin_ime.Base.Tests.{Bool-cases, Option-cases, if◌then◌else◌}
use yunpin_ime.Base.Lists.{All}
use yunpin_ime.Base.Bytes.{Bytes, same, same_iff}
use yunpin_ime.Base.Int.{ℤ}
use yunpin_ime.Base.Map.{Entries, insert, lookup, lookup-insert}
use yunpin_ime.Base.Result.{ok, with_error, with_error-eq-ok}
use yunpin_ime.Base.Exec.{lift}
use yunpin_ime.Base.Ensures.{Ensures, Ensures-bind, Ensures-lift, Ensures-modify, ok_injective}
use yunpin_ime.LocalStore.Phrase.{
  Phrase, StoreError, seal_failed, max_uint64, materialize_phrase, ensure_phrase_state,
}
use yunpin_ime.Protocol.Clock.{Hlc}
use yunpin_ime.Protocol.Crdt.{entries}
use yunpin_ime.LocalStore.Phrase.Ready.{
  IsReady, IsCore, AreCounts, materialize_phrase-IsReady, ensure_phrase_state-IsReady,
}
use yunpin_ime.LocalStore.Phrase.Utf8.{is_utf8, ensure_phrase_state-utf8}
use yunpin_ime.LocalStore.HlcState.{next_hlc}
use yunpin_ime.LocalStore.Store.Text.{IsVault, open_phrase-seal}
use yunpin_ime.LocalStore.Store.{
  Vault, Db, OutboxRow, seal_phrase, open_phrase, phrase_object_id, take_clock, load_by_id, upsert,
  enqueue_row, write_phrase,
}

module _ {Row : Type 0} (v : Vault Row) (laws : IsVault v) where
  -- The record of the object with this id, under the store's key.
  pub record IsRecord (id : Bytes) (p : Phrase) : Type 0 where
    pub named : phrase_object_id v p ≡ ok id
    pub ready : IsReady id p
    pub utf8 : is_utf8 laws.valid_string p ≡ true

  -- The same before the plain fields are brought up to date.
  pub record IsDraft (id : Bytes) (p : Phrase) : Type 0 where
    pub named : phrase_object_id v p ≡ ok id
    pub core : IsCore id p
    pub utf8 : is_utf8 laws.valid_string p ≡ true

  pub phrase_object_id-same :
      (p q : Phrase)
      → q.text ≡ p.text
      → q.pinyin ≡ p.pinyin
      → phrase_object_id v q ≡ phrase_object_id v p
  unfolding phrase_object_id
  phrase_object_id-same p q e f = rw (e, f)

  pub materialize-IsRecord :
      (id : Bytes) (p : Phrase) → IsDraft id p → IsRecord id (materialize_phrase p)
  materialize-IsRecord id p d = record {
    named =
        phrase_object_id-same p (materialize_phrase p) (unfold materialize_phrase in refl)
          (unfold materialize_phrase in refl)
        ∙ d.named;
    ready = materialize_phrase-IsReady id p d.core;
    utf8 = unfold materialize_phrase in d.utf8;
  }

  -- `ensurePhraseState` at a record that may be edited or new.
  pub ensure-IsRecord :
      (p : Phrase) (id : Bytes) (clock : Hlc)
      → phrase_object_id v p ≡ ok id
      → laws.valid_string clock.node ≡ true
      → is_utf8 laws.valid_string p ≡ true
      → p.use_count ≤ max_uint64
      → AreCounts (entries p.crdt.counts)
      → (q : Phrase) → ensure_phrase_state p id v.device_id clock ≡ ok q
      → IsRecord id q
  ensure-IsRecord p id clock named node utf8 h a q e =
      let (ready, count, text, pinyin) =
        ensure_phrase_state-IsReady p id v.device_id clock q h a e in
      record {
        named = phrase_object_id-same p q text pinyin ∙ named;
        ready = ready;
        utf8 =
            ensure_phrase_state-utf8 laws.valid_string p id v.device_id clock q (laws.hex_valid id)
              laws.device_valid node utf8 e;
      }

  abbrev pub Opens : Bytes → Row → Type 0
  Opens id row = (p : Phrase) × (open_phrase v id row ≡ some p) × IsRecord id p

  pub record IsSound (db : Db Row) : Type 0 where
    pub stored : (id : Bytes) (row : Row) → lookup id db.phrases ≡ some row → Opens id row
    pub queued : All (λ r. Opens r.object_id r.row) db.outbox

  enqueue_row-Opens :
      (id : Bytes) (row : Row) (fresh : ℕ) (rows : List (OutboxRow Row))
      → Opens id row
      → All (λ r. Opens r.object_id r.row) rows
      → All (λ r. Opens r.object_id r.row) (enqueue_row id row fresh rows)
  unfolding enqueue_row
  enqueue_row-Opens id row fresh [] o h = (o, tt)
  enqueue_row-Opens id row fresh (r ∷ rows) o h = elim (Bool-cases (same r.object_id id)) [
    | inl hit ↦ rw hit (subst (λ k. Opens k row) (sym ((same_iff r.object_id id).0 hit)) o, h.1)
    | inr miss ↦ rw miss (h.0, enqueue_row-Opens id row fresh rows o h.1)
  ]

  insert-Opens :
      (id : Bytes) (row : Row) (m : Entries Row)
      → Opens id row
      → ((j : Bytes) (r : Row) → lookup j m ≡ some r → Opens j r)
      → (j : Bytes) (r : Row) → lookup j (insert id row m) ≡ some r
      → Opens j r
  insert-Opens id row m o s j r found = elim (Bool-cases (same id j)) [
    | inl hit ↦
        let one : row ≡ r = ground (arith, lookup-insert id j row m, hit) in
        subst (λ x. Opens j x) one (subst (λ k. Opens k row) ((same_iff id j).0 hit) o)
    | inr miss ↦ s j r (ground (arith, lookup-insert id j row m, miss))
  ]

  write_phrase-IsSound :
      (enqueue : Bool) (id : Bytes) (row event_row : Row) (db : Db Row)
      → Opens id row
      → Opens id event_row
      → IsSound db
      → IsSound (write_phrase enqueue id row event_row db)
  unfolding write_phrase
  write_phrase-IsSound false id row event_row db o e s = record {
    stored = insert-Opens id row db.phrases o s.stored;
    queued = s.queued;
  }
  write_phrase-IsSound true id row event_row db o e s = record {
    stored = insert-Opens id row db.phrases o s.stored;
    queued = enqueue_row-Opens id event_row (db.last_event + 1) db.outbox e s.queued;
  }

  seal-Opens :
      (id : Bytes) (p : Phrase) (row : Row)
      → IsRecord id p
      → with_error seal_failed (seal_phrase v id p) ≡ ok row
      → Opens id row
  seal-Opens id p row r e = (
    p,
    open_phrase-seal v laws id p row r.utf8 (with_error-eq-ok seal_failed (seal_phrase v id p) e),
    r,
  )

  event_row-Opens :
      (enqueue : Bool) (id : Bytes) (p : Phrase) (row event_row : Row)
      → IsRecord id p
      → Opens id row
      → (if enqueue then with_error seal_failed (seal_phrase v id p) else ok row) ≡ ok event_row
      → Opens id event_row
  event_row-Opens true id p row event_row r o e = seal-Opens id p event_row r e
  event_row-Opens false id p row event_row r o e =
      subst (λ x. Opens id x) (ok_injective {E = StoreError} e) o

  -- Writing a record of its object keeps the invariant.
  pub upsert-Ensures :
      (p : Phrase) (enqueue : Bool) (id : Bytes)
      → IsRecord id p
      → Ensures IsSound (λ _. Unit {0}) (upsert v p enqueue)
  unfolding upsert
  upsert-Ensures p enqueue id r =
      Ensures-bind (λ i. i ≡ id) (λ _. Unit {0}) (lift (phrase_object_id v p)) _
        (Ensures-lift _ _ λ i e. ok_injective {E = StoreError} (sym e ∙ r.named))
        λ i e. rw e (
          Ensures-bind (Opens id) (λ _. Unit {0})
            (lift (with_error seal_failed (seal_phrase v id p))) _
            (Ensures-lift _ _ λ row f. seal-Opens id p row r f)
            λ row o.
              Ensures-bind (Opens id) (λ _. Unit {0}) _ _
                (Ensures-lift _ _ λ event_row f. event_row-Opens enqueue id p row event_row r o f)
                λ event_row o'.
                  Ensures-modify _ λ db h. write_phrase-IsSound enqueue id row event_row db o o' h)

  pub take_clock-Ensures :
      (now : ℤ)
      → Ensures IsSound (λ (clock : Hlc). laws.valid_string clock.node ≡ true) (take_clock v now)
  unfolding take_clock next_hlc
  take_clock-Ensures now = record {
    kept = λ db h. record { stored = h.stored; queued = h.queued };
    returned = λ db h a e. ground (arith, e, laws.device_valid);
  }

  -- What is stored under the id, if anything, is a record of the object.
  abbrev pub MaybeRecord : Bytes → Option Phrase → Type 0
  MaybeRecord id none = Unit {0}
  MaybeRecord id (some p) = IsRecord id p

  load_kept : (id : Bytes) (db : Db Row) → IsSound db → IsSound (load_by_id v id db).1
  unfolding load_by_id
  load_kept id db h = elim (Option-cases (lookup id db.phrases)) [
    | inl e ↦ rw (e, load_by_id) h
    | inr (row, e) ↦ let (p, opens, r) = h.stored id row e in rw (e, load_by_id, opens) h
  ]

  load_returned :
      (id : Bytes) (db : Db Row)
      → IsSound db
      → (o : Option Phrase) → (load_by_id v id db).0 ≡ ok o
      → MaybeRecord id o
  unfolding load_by_id
  load_returned id db h none f = tt
  load_returned id db h (some q) f = elim (Option-cases (lookup id db.phrases)) [
    | inl e ↦ ground arith
    | inr (row, e) ↦
        let (p, opens, r) = h.stored id row e in subst (IsRecord id) (ground (arith, opens, e)) r
  ]

  pub load_by_id-Ensures : (id : Bytes) → Ensures IsSound (MaybeRecord id) (load_by_id v id)
  load_by_id-Ensures id = record { kept = load_kept id; returned = load_returned id }
