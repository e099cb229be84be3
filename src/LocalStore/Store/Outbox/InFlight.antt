-- ===== src/LocalStore/Store/Outbox/InFlight.antt =====
-- A change that is written while an upload is on its way.
use yunpin_ime.Base.{◌≡◌, ◌<◌, arith, ℕ, Option, none, some, List, [], ◌∷◌}
use yunpin_ime.Base.Tests.{if◌then◌else◌}
use yunpin_ime.Base.Lists.{All}
use yunpin_ime.Base.Bytes.{Bytes, same, same_iff}
use yunpin_ime.LocalStore.Store.{OutboxRow, enqueue_row}
use yunpin_ime.LocalStore.Store.Outbox.{drop_event}

-- What waits to be sent for an object.
unfoldable pub waiting : {Row : Type 0} → Bytes → List (OutboxRow Row) → Option Row
waiting id [] = none
waiting id (r ∷ rows) = if same r.object_id id then some r.row else waiting id rows

-- Where the event that is on its way is sent in its current version, and is not a future one, a change
-- of any object that is queued meanwhile still waits after the acknowledgement has dropped the event.
pub waiting-drop_event-enqueue_row :
    {Row : Type 0} (id : Bytes) (row : Row) (fresh event version : ℕ) (rows : List (OutboxRow Row))
    → event < fresh
    → All (λ r. r.event_id ≡ event → r.version ≡ version) rows
    → waiting id (drop_event event version (enqueue_row id row fresh rows)) ≡ some row
unfolding waiting drop_event enqueue_row
waiting-drop_event-enqueue_row id row fresh event version [] h a = ground (arith, same_iff id id)
waiting-drop_event-enqueue_row id row fresh event version (r ∷ rows) h (now, a) =
    ground (arith, now, waiting-drop_event-enqueue_row id row fresh event version rows h a)
