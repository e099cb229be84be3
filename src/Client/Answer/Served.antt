-- ===== src/Client/Answer/Served.antt =====
-- The pages of sync/internal/server/server.go in the order that syncclient/worker.go asks for.
use Prim.Native.Nat.Ordering.{lt}
use yunpin_ime.Base.{
  ◌≡◌, ◌<◌, refl, sym, subst, arith, ℕ, Bool, true, ◌&&◌, List, [], ◌∷◌, ◌++◌, map, inl, inr,
}
use mathlib.Core.List.{reverse, reverse-cons}
use yunpin_ime.Base.Tests.{Bool-cases}
use yunpin_ime.Base.Lists.{All}
use yunpin_ime.Base.Int.{ℤ, pos, compare_int, ltb_int}
use yunpin_ime.Base.Bytes.{Bytes, same}
use yunpin_ime.Base.Result.{ok}
use yunpin_ime.Relay.Envelope.{Identity, Primitives}
use yunpin_ime.Relay.Sync.{
  Stored, Relay, Request, Response, later_rows, last_cursor, outgoing, sync_envelopes,
}
use yunpin_ime.Relay.Sync.Log.{IsLog, IsTable, sync_envelopes-IsTable}
use yunpin_ime.Relay.Sync.Page.{sync_envelopes-page}
use yunpin_ime.Relay.Sync.Delivery.{downloaded}
use yunpin_ime.Client.Answer.Order.{IsPage}

-- From a cursor, the rows have rising cursors.
abbrev Rising : ℤ → List Stored → Type 0
Rising last [] = Unit {0}
Rising last (r ∷ rows) = (compare_int last (pos r.cursor) ≡ lt) × Rising (pos r.cursor) rows

All-append : (P : Stored → Type 0) (xs ys : List Stored) → All P xs → All P ys → All P (xs ++ ys)
All-append P [] ys h k = k
All-append P (x ∷ xs) ys h k = (h.0, All-append P xs ys h.1 k)

All-reverse : (P : Stored → Type 0) (xs : List Stored) → All P xs → All P (reverse xs)
All-reverse P [] h = tt
All-reverse P (x ∷ xs) h =
    subst (All P) (sym (reverse-cons x xs))
      (All-append P (reverse xs) (x ∷ []) (All-reverse P xs h.1) (h.0, tt))

below_int : (a b : ℕ) → a < b → compare_int (pos a) (pos b) ≡ lt
unfolding compare_int
below_int a b h = ground (arith, h)

Rising-snoc :
    (last : ℤ) (rows : List Stored) (r : Stored)
    → Rising last rows
    → All (λ q. q.cursor < r.cursor) rows
    → compare_int last (pos r.cursor) ≡ lt
    → Rising last (rows ++ r ∷ [])
Rising-snoc last [] r h below above = (above, tt)
Rising-snoc last (q ∷ rows) r h below above =
    (h.0, Rising-snoc (pos q.cursor) rows r h.1 below.1 (below_int q.cursor r.cursor below.0))

Rising-prefix : (last : ℤ) (out rest : List Stored) → Rising last (out ++ rest) → Rising last out
Rising-prefix last [] rest h = tt
Rising-prefix last (r ∷ out) rest h = (h.0, Rising-prefix (pos r.cursor) out rest h.1)

All-later_rows :
    (P : Stored → Type 0) (account : Bytes) (cursor : ℤ) (rows : List Stored)
    → All P rows
    → All P (later_rows account cursor rows)
unfolding later_rows
All-later_rows P account cursor [] h = tt
All-later_rows P account cursor (r ∷ rows) h =
    elim (Bool-cases (same r.account_id account && ltb_int cursor (pos r.cursor))) [
      | inl kept ↦ rw kept (h.0, All-later_rows P account cursor rows h.1)
      | inr dropped ↦ rw dropped (All-later_rows P account cursor rows h.1)
    ]

later_int :
    (a : Bool) (cursor : ℤ) (n : ℕ)
    → (a && ltb_int cursor (pos n)) ≡ true
    → compare_int cursor (pos n) ≡ lt
later_int a cursor n h = ground (arith, h)

-- The selected rows, the oldest first.
Rising-later_rows :
    (account : Bytes) (cursor : ℤ) (rows : List Stored)
    → IsLog rows
    → Rising cursor (reverse (later_rows account cursor rows))
unfolding later_rows
Rising-later_rows account cursor [] h = tt
Rising-later_rows account cursor (r ∷ rows) h =
    let rest = Rising-later_rows account cursor rows h.3 in
    elim (Bool-cases (same r.account_id account && ltb_int cursor (pos r.cursor))) [
      | inl kept ↦
          rw (kept, reverse-cons r (later_rows account cursor rows))
            (Rising-snoc cursor (reverse (later_rows account cursor rows)) r rest
              (All-reverse (λ q. q.cursor < r.cursor) (later_rows account cursor rows)
                (All-later_rows (λ q. q.cursor < r.cursor) account cursor rows h.2))
              (later_int (same r.account_id account) cursor r.cursor kept))
      | inr dropped ↦ rw dropped rest
    ]

Rising-IsPage :
    (p : Primitives) (last : ℤ) (out : List Stored)
    → Rising last out
    → IsPage last (map downloaded (map (outgoing p) out)) (last_cursor last out)
unfolding last_cursor
Rising-IsPage p last [] h = refl
Rising-IsPage p last (r ∷ out) h = (h.0, Rising-IsPage p (pos r.cursor) out h.1)

-- Every answer of a relay with a well-formed table is a page in the worker's sense, from the
-- cursor of the request to the answer's next cursor.
pub sync_envelopes-IsPage :
    (p : Primitives) (i : Identity) (request : Request) (relay relay' : Relay) (response : Response)
    → IsTable relay.table
    → sync_envelopes p i request relay ≡ ok (response, relay')
    → IsPage request.cursor (map downloaded response.envelopes) response.next_cursor
sync_envelopes-IsPage p i request relay relay' response t e =
    let (_, out, rest, _, _, split, sent, next, _, _) =
      sync_envelopes-page p i request relay relay' response e in
    let table = sync_envelopes-IsTable p i request relay relay' response t e in
    let rows = Rising-later_rows i.account_id request.cursor relay'.table.rows table.log in
    rw (sent, next)
      (Rising-IsPage p request.cursor out
        (Rising-prefix request.cursor out rest (subst (Rising request.cursor) split rows)))
