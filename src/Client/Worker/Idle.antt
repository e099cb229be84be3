-- ===== src/Client/Worker/Idle.antt =====
-- syncclient/worker.go: the rounds end, and what holds where they end without an error.
use yunpin_ime.Base.{
  ◌≡◌, ◌≤◌, refl, arith, ℕ, zero, suc, Bool, true, false, not, ◌&&◌, ◌||◌, Option, none, some, List,
  [], ◌∷◌,
}
use yunpin_ime.Base.Tests.{ltb, ◌==◌, if◌then◌else◌}
use yunpin_ime.Base.Lists.{length}
use yunpin_ime.Base.Result.{Result, ok, err}
use yunpin_ime.LocalStore.Store.{Vault, OutboxRow}
use yunpin_ime.LocalStore.Store.Outbox.{pending_event_count}
use yunpin_ime.LocalStore.SyncState.{Opened}
use yunpin_ime.LocalStore.SyncState.Chain.{IsChained}
use yunpin_ime.Client.Session.{Session, SyncResult, Library, World, WorkerError, Disk, tables}
use yunpin_ime.Client.Worker.{sync_once, rounds, sync_until_idle, round_step, Run}
use yunpin_ime.Client.Worker.Chain.{sync_once-IsChained}

abbrev last_result : List SyncResult → Option SyncResult
last_result [] = none
last_result (r ∷ []) = some r
last_result (r ∷ q ∷ rest) = last_result (q ∷ rest)

-- What a run of at most n rounds leaves.
pub record Ended {Row W : Type 0} (n : ℕ)
    (out : (List SyncResult × Option WorkerError) × (Disk Row × W)) : Type 0 where
  pub bounded : length out.0.0 ≤ n
  pub chained : IsChained (tables out.1.0)
  pub drained : out.0.1 ≡ none → length out.1.0.db.outbox ≡ 0
  pub read_all :
      out.0.1 ≡ none → (r : SyncResult) × (last_result out.0.0 ≡ some r) × (r.has_more ≡ false)

last_cons :
    (r : SyncResult) (rest : List SyncResult) (q : SyncResult)
    → last_result rest ≡ some q
    → last_result (r ∷ rest) ≡ some q
last_cons r [] q h = cc
last_cons r (p ∷ rest) q h = h

no_rows : {Row : Type 0} (rows : List (OutboxRow Row)) → (length rows == 0) ≡ true → length rows ≡ 0
no_rows rows h = ground (arith, h)

module _ {Row W : Type 0} where
  quiet-Ended :
      (n : ℕ) (r : SyncResult) (next : Disk Row × W)
      → IsChained (tables next.0)
      → (not r.has_more && pending_event_count next.0.db == 0) ≡ true
      → Ended (suc n) ((r ∷ [], none), next)
  unfolding pending_event_count
  quiet-Ended n r next c h = record {
    bounded = ground arith;
    chained = c;
    drained = λ k. no_rows next.0.db.outbox (ground (arith, h));
    read_all = λ k. (r, refl, ground (arith, h));
  }

  busy-Ended :
      (n : ℕ) (r : SyncResult) (rest : (List SyncResult × Option WorkerError) × (Disk Row × W))
      → Ended n rest
      → Ended (suc n) ((r ∷ rest.0.0, rest.0.1), rest.1)
  busy-Ended n r rest h = record {
    bounded = omega (arith, h.bounded);
    chained = h.chained;
    drained = h.drained;
    read_all = λ k. (let (q, last, all) = h.read_all k in (q, last_cons r rest.0.0 q last, all));
  }

  Ended-if :
      (n : ℕ) (b : Bool) (x y : (List SyncResult × Option WorkerError) × (Disk Row × W))
      → (b ≡ true → Ended n x)
      → Ended n y
      → Ended n (if b then x else y)
  Ended-if n true x y h k = h refl
  Ended-if n false x y h k = k

module _ {Row W : Type 0} (v : Vault Row) (o : Opened) (l : Library) (world : World W)
    (s : Session) where
  step-Ended :
      (n : ℕ) (answer : Result WorkerError SyncResult) (next : Disk Row × W)
      (rest : Run v o l world s)
      → IsChained (tables next.0)
      → Ended n rest
      → Ended (suc n) (round_step v o l world s answer next rest)
  step-Ended n (err e) next rest c h = record {
    bounded = ground arith;
    chained = c;
    drained = λ k. cc;
    read_all = λ k. cc;
  }
  step-Ended n (ok r) next rest c h =
      Ended-if (suc n) (not r.has_more && pending_event_count next.0.db == 0) _ _
        (quiet-Ended n r next c) (busy-Ended n r rest h)

  rounds-Ended :
      (n : ℕ) (state : Disk Row × W)
      → IsChained (tables state.0)
      → Ended n (rounds v o l world s n state)
  unfolding rounds
  rounds-Ended zero state c = record {
    bounded = ground arith;
    chained = c;
    drained = λ k. cc;
    read_all = λ k. cc;
  }
  rounds-Ended (suc n) (d, w) c =
      let after = sync_once v o l world s (d, w) in
      let chained = sync_once-IsChained v o l world s d w c in
      step-Ended n after.0 after.1 (rounds v o l world s n after.1) chained
        (rounds-Ended n after.1 chained)

  -- From a well-formed checkpoint, the loop ends after at most the given number of exchanges and keeps
  -- the checkpoint. Where it ends without an error, the outbox is empty and the last answer has
  -- announced no more.
  pub sync_until_idle-Ended :
      (n : ℕ) (state : Disk Row × W)
      → IsChained (tables state.0)
      → Ended n (sync_until_idle v o l world s n state)
  unfolding sync_until_idle
  sync_until_idle-Ended n state c =
      Ended-if n (ltb n 1 || ltb 1024 n) _ _
        (λ _. record { bounded = ground arith; chained = c; drained = λ k. cc; read_all = λ k. cc })
        (rounds-Ended n state c)
