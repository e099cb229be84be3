-- ===== src/Client/Answer/Order.antt =====
-- The pages that `decodeDownloads` accepts: no envelope is skipped or read twice.
use Prim.Native.Nat.Ordering.{lt}
use yunpin_ime.Base.{◌≡◌, sym, subst, ap, ◌∙◌, arith, ℕ, suc, false, not, ◌||◌, ◌&&◌, List, [], ◌∷◌}
use yunpin_ime.Base.Tests.{ltb}
use yunpin_ime.Base.Lists.{length}
use yunpin_ime.Base.Int.{ℤ, pos, compare_int, compare_int-IsTotalOrder, ltb_int}
use yunpin_ime.Base.Result.{ok, ◌>>◌, >>=-eq-ok, fail_if, fail_if-eq-ok}
use yunpin_ime.Base.Ensures.{ok_injective}
use yunpin_ime.Protocol.Envelope.{max_int64}
use yunpin_ime.Protocol.Wire.{WireEnvelope}
use yunpin_ime.LocalStore.Phrase.{PhrasePayload}
use yunpin_ime.LocalStore.SyncState.{equal_int}
use yunpin_ime.Client.Session.{
  Session, SyncResponse, Library, out_of_order, cursor_without_envelope, cursor_mismatch,
}
use yunpin_ime.Client.Answer.{decode_download, decode_each, decode_downloads, none_of}

-- From a cursor, the envelopes have rising cursors, the last of which is the next one.
abbrev pub IsPage : ℤ → List WireEnvelope → ℤ → Type 0
IsPage last [] next = last ≡ next
IsPage last (wire ∷ wires) next =
    (compare_int last (pos wire.cursor) ≡ lt) × IsPage (pos wire.cursor) wires next

rising :
    (n : ℕ) (next last : ℤ)
    → (ltb max_int64 n || not (ltb_int last (pos n)) || ltb_int next (pos n)) ≡ false
    → compare_int last (pos n) ≡ lt
rising n next last h = ground (arith, h)

equal_int-eq : (a b : ℤ) → not (equal_int a b) ≡ false → a ≡ b
equal_int-eq a b h = ground (arith, h, compare_int-IsTotalOrder.eq_same a b)

-- The two tests after the loop.
settled :
    (wires : List WireEnvelope) (next cursor last : ℤ)
    → IsPage cursor wires last
    → (none_of wires && not (equal_int next cursor)) ≡ false
    → (not (none_of wires) && not (equal_int last next)) ≡ false
    → last ≡ next
settled [] next cursor last page h k = sym page ∙ sym (equal_int-eq next cursor h)
settled (wire ∷ wires) next cursor last page h k = equal_int-eq last next k

module _ (l : Library) (s : Session) where
  -- The loop over the envelopes, from its result.
  decode_each-IsPage :
      (next last : ℤ) (wires : List WireEnvelope) {result : ℤ × List PhrasePayload}
      → decode_each l s next last wires ≡ ok result
      → IsPage last wires result.0 × (length result.1 ≡ length wires)
  unfolding decode_each
  decode_each-IsPage next last [] h =
      (ap (λ r. r.0) (ok_injective h), ap (λ r. length r.1) (sym (ok_injective h)))
  decode_each-IsPage next last (wire ∷ wires) h =
      let test =
        ltb max_int64 wire.cursor
        || not (ltb_int last (pos wire.cursor))
        || ltb_int next (pos wire.cursor) in
      let (payload, first, h2) =
        >>=-eq-ok (fail_if test out_of_order >> decode_download l s wire) _ h in
      let (_, ordered, _) = >>=-eq-ok (fail_if test out_of_order) _ first in
      let (rest, hr, made) = >>=-eq-ok (decode_each l s next (pos wire.cursor) wires) _ h2 in
      let (page, size) = decode_each-IsPage next (pos wire.cursor) wires hr in
      (
        (
          rising wire.cursor next last (fail_if-eq-ok test out_of_order ordered),
          subst (λ r. IsPage (pos wire.cursor) wires r.0) (ok_injective made) page,
        ),
        ap (λ r. length r.1) (sym (ok_injective made)) ∙ ap suc size,
      )

  -- The downloads that are decoded are a page from the worker's cursor to the answer's next cursor,
  -- with one payload for each envelope.
  pub decode_downloads-IsPage :
      (response : SyncResponse) (cursor : ℤ) {payloads : List PhrasePayload}
      → decode_downloads l s response cursor ≡ ok payloads
      → IsPage cursor response.envelopes response.next_cursor
        × (length payloads ≡ length response.envelopes)
  unfolding decode_downloads
  decode_downloads-IsPage response cursor h =
      let (decoded, hd, h2) =
        >>=-eq-ok (decode_each l s response.next_cursor cursor response.envelopes) _ h in
      let (page, size) = decode_each-IsPage response.next_cursor cursor response.envelopes hd in
      let (_, checks, made) =
        >>=-eq-ok
          (fail_if (none_of response.envelopes && not (equal_int response.next_cursor cursor))
              cursor_without_envelope
            >> fail_if
                (not (none_of response.envelopes) && not (equal_int decoded.0 response.next_cursor))
                cursor_mismatch)
          _ h2 in
      let (_, first, second) = >>=-eq-ok (fail_if _ cursor_without_envelope) _ checks in
      (
        subst (IsPage cursor response.envelopes)
            (settled response.envelopes response.next_cursor cursor decoded.0 page
              (fail_if-eq-ok _ cursor_without_envelope first)
              (fail_if-eq-ok _ cursor_mismatch second))
            page,
        ap length (sym (ok_injective made)) ∙ size,
      )
