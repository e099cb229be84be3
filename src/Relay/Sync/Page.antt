-- ===== src/Relay/Sync/Page.antt =====
-- The page that a sync returns: a first part of what is later than the cursor, and all of it where
-- no more is announced.
use yunpin_ime.Base.{
  ◌||◌, ◌&&◌, ◌⊎◌, ◌∙◌, ◌≡◌, ◌≤◌, ◌<◌, refl, arith, ap, sym, subst, inl, inr, ℕ, zero, suc, ◌+◌,
  Bool, true, false, some, List, [], ◌∷◌, ◌++◌, map,
}
use yunpin_ime.Base.Tests.{Bool-cases, Option-cases, ltb, leb}
use yunpin_ime.Base.Lists.{length, take, drop, append_assoc, length-append}
use yunpin_ime.Base.Int.{ℤ, pos, negsuc}
use yunpin_ime.Base.Result.{ok}
use mathlib.Core.List.{reverse}
use yunpin_ime.Relay.Envelope.{Identity, Primitives}
use yunpin_ime.Relay.Sync.{
  Stored, Relay, Request, Response, page, page_limit, last_cursor, later_rows, transact,
  sync_envelopes, Split, outgoing, offer_all,
}
use yunpin_ime.Relay.Sync.Log.{sync_envelopes-transact, transact-table}

page-cases :
    (limit n bytes : ℕ) (r : Stored) (rs out : List Stored) (more : Bool)
    → page limit n bytes (r ∷ rs) ≡ some (out, more)
    → ((out ≡ []) × (more ≡ true) × ((limit ≤ n) ⊎ (0 < n)))
      ⊎ ((tail : List Stored) × (out ≡ r ∷ tail)
          × (n < limit)
          × (page limit (n + 1) (bytes + length r.ciphertext) rs ≡ some (tail, more)))
unfolding page
page-cases limit n bytes r rs out more e =
    elim (Option-cases (page limit (n + 1) (bytes + length r.ciphertext) rs)) [
      | inl failed ↦ ground arith
      | inr ((tail, m), found) ↦
          elim (Bool-cases (leb limit n || ltb 0 n && ltb 524816 (bytes + length r.ciphertext))) [
            | inl full ↦ inl (ground arith)
            | inr room ↦ inr (tail, ground arith, ground arith, ground arith)
          ]
    ]

page-nil :
    (limit n bytes : ℕ) (out : List Stored) (more : Bool)
    → page limit n bytes [] ≡ some (out, more)
    → n ≤ limit
    → (rest : List Stored) × ([] ≡ out ++ rest)
      × (n + length out ≤ limit)
      × (more ≡ false → rest ≡ [])
      × (more ≡ true → 0 < n + length out)
unfolding page
page-nil limit n bytes out more e h = ([], ground arith, ground arith, λ m. refl, ground arith)

page-split :
    (limit n bytes : ℕ) (rows out : List Stored) (more : Bool)
    → page limit n bytes rows ≡ some (out, more)
    → 0 < limit
    → n ≤ limit
    → (rest : List Stored) × (rows ≡ out ++ rest)
      × (n + length out ≤ limit)
      × (more ≡ false → rest ≡ [])
      × (more ≡ true → 0 < n + length out)
page-split limit n bytes [] out more e p h = page-nil limit n bytes out more e h
page-split limit n bytes (r ∷ rs) out more e p h = elim (page-cases limit n bytes r rs out more e) [
  | inl (nothing, ended, full) ↦
      (r ∷ rs, sym (ap (λ o. o ++ r ∷ rs) nothing), ground arith, ground arith, ground arith)
  | inr (tail, made, below, found) ↦
      let (rest, split, fits, all, some_rows) =
        page-split limit (n + 1) (bytes + length r.ciphertext) rs tail more found p
          (omega (arith, below)) in
      (rest, ground (arith, made, split), ground (arith, made, fits), all, ground (arith, made))
]

take-drop : (n : ℕ) (rows : List Stored) → rows ≡ take n rows ++ drop n rows
take-drop zero rows = refl
take-drop (suc n) [] = refl
take-drop (suc n) (r ∷ rs) = ap (λ x. r ∷ x) (take-drop n rs)

drop_short : (n : ℕ) (rows : List Stored) → length (take n rows) < n → drop n rows ≡ []
drop_short zero rows h = ground (arith, h)
drop_short (suc n) [] h = refl
drop_short (suc n) (r ∷ rs) h = drop_short n rs (omega (arith, h))

split_all :
    (limit : ℕ) (rows out rest : List Stored)
    → take (limit + 1) rows ≡ out ++ rest
    → 0 + length out ≤ limit
    → (rows ≡ out ++ (rest ++ drop (limit + 1) rows))
      × (rest ≡ [] → rest ++ drop (limit + 1) rows ≡ [])
split_all limit rows out rest e h = (
  take-drop (limit + 1) rows
      ∙ ap (λ w. w ++ drop (limit + 1) rows) e
      ∙ append_assoc out rest (drop (limit + 1) rows),
  λ nothing.
      ap (λ w. w ++ drop (limit + 1) rows) nothing
      ∙ drop_short (limit + 1) rows (
          subst (λ w. length w < limit + 1) (sym (e ∙ ap (λ w. out ++ w) nothing))
            (omega (arith, length-append out [], h))),
)

transact-page :
    (p : Primitives) (i : Identity) (request : Request) (relay relay' : Relay) (response : Response)
    (limit : ℕ) (split : Split)
    → transact p i request relay limit split ≡ ok (response, relay')
    → (out : List Stored) × (page limit 0 0
          (take (limit + 1) (reverse (later_rows i.account_id request.cursor relay'.table.rows)))
        ≡ some (out, response.has_more))
      × (response.envelopes ≡ map (outgoing p) out)
      × (response.next_cursor ≡ last_cursor request.cursor out)
unfolding transact
transact-page p i request relay relay' response limit split e =
    let table = transact-table p i request relay relay' response limit split e in
    elim (Option-cases (
      page limit 0 0 (
        take (limit + 1) (
          reverse
            (later_rows i.account_id request.cursor (offer_all i split.1 relay.table).1.rows))))) [
              | inl failed ↦ ground arith
              | inr ((out, more), found) ↦ (out, ground arith, ground arith, ground arith)
            ]

-- The limit that a request asks for: 256 where it asks for none, and else the number it gives.
abbrev pub IsLimit : ℤ → ℕ → Type 0
IsLimit asked limit =
    ((asked ≡ pos 0) × (limit ≡ 256)) ⊎ ((asked ≡ pos limit) × (0 < limit) × (limit ≤ 256))

page_limit-IsLimit : (asked : ℤ) (limit : ℕ) → page_limit asked ≡ some limit → IsLimit asked limit
unfolding page_limit
page_limit-IsLimit (pos zero) limit e = inl (refl, ground arith)
page_limit-IsLimit (pos (suc n)) limit e = inr (ap pos (ground arith), ground arith, ground arith)
page_limit-IsLimit (negsuc n) limit e = ground arith

IsLimit-positive : (asked : ℤ) (limit : ℕ) → IsLimit asked limit → 0 < limit
IsLimit-positive asked limit h = ground (arith, h)

-- An answer holds, in order and in transport form, a first part of the account's rows later than the
-- cursor, at most as many as the request asks for, and at most 256 where it asks for no number. Its
-- next cursor is the last one in it. Where it announces no more, nothing is left; where it announces
-- more, it holds a row.
pub sync_envelopes-page :
    (p : Primitives) (i : Identity) (request : Request) (relay relay' : Relay) (response : Response)
    → sync_envelopes p i request relay ≡ ok (response, relay')
    → (limit : ℕ) × (out : List Stored) × (rest : List Stored) × IsLimit request.limit limit
      × (length out ≤ limit)
      × (reverse (later_rows i.account_id request.cursor relay'.table.rows) ≡ out ++ rest)
      × (response.envelopes ≡ map (outgoing p) out)
      × (response.next_cursor ≡ last_cursor request.cursor out)
      × (response.has_more ≡ false → rest ≡ [])
      × (response.has_more ≡ true → 0 < length out)
sync_envelopes-page p i request relay relay' response e =
    let (limit, split, limited, done) =
      sync_envelopes-transact p i request relay relay' response e in
    let asked = page_limit-IsLimit request.limit limit limited in
    let positive = IsLimit-positive request.limit limit asked in
    let later : List Stored = reverse (later_rows i.account_id request.cursor relay'.table.rows) in
    let (out, paged, envelopes, cursor) =
      transact-page p i request relay relay' response limit split done in
    let (rest, taken, fits, all, some_rows) =
      page-split limit 0 0 (take (limit + 1) later) out response.has_more paged positive
        (omega arith) in
    (
      limit,
      out,
      rest ++ drop (limit + 1) later,
      asked,
      omega (arith, fits),
      (split_all limit later out rest taken fits).0,
      envelopes,
      cursor,
      λ more. (split_all limit later out rest taken fits).1 (all more),
      λ more. omega (arith, some_rows more),
    )
