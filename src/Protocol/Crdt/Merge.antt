-- ===== src/Protocol/Crdt/Merge.antt =====
-- `MergePhrase` against its abstract view: what a reader of the merged state can observe.
use mathlib.Core.Path.{◌≡⟨◌⟩◌, ◌∎}
use yunpin_ime.Base.{ℕ, ◌≡◌, refl, sym, ap, fun_ext, Bool, true, false, not, ◌||◌, arith, max}
use yunpin_ime.Base.Tests.{if◌then◌else◌}
use yunpin_ime.Base.Bytes.{Bytes, same, same_iff, is_empty}
use yunpin_ime.Base.Bytes.{compare_bytes, compare_bytes-IsTotalOrder}
use yunpin_ime.Base.Order.{pick, pick_idem}
use yunpin_ime.Base.Map.{IsMap, count_at}
use yunpin_ime.Base.Result.{Result, ok, err, ◌>>=◌, ◌>>◌, fail_if, result_map}
use yunpin_ime.Base.Semilattice.{IsSemilattice}
use yunpin_ime.Protocol.Crdt.{
  LwwBool, Presence, PhraseState, MergeError, different_phrase_objects, choose_bool,
  choose_presence, entries, merge_phrase,
}
use yunpin_ime.Protocol.Crdt.Choose.{
  pick-IsSemilattice, choose_bool-IsSemilattice, choose_presence-IsSemilattice,
}
use yunpin_ime.Protocol.Crdt.Counts.{count_at-raise_counts, raise_counts-IsMap}

-- The counters are read through `Counts[device]`, so nil, a missing key and a stored 0 look alike.
pub record View : Type 0 where
  pub object_id : Bytes
  pub count : Bytes → ℕ
  pub pinned : LwwBool
  pub presence : Presence

abbrev pub view : PhraseState → View
view s = record {
  object_id = s.object_id;
  count = count_at (entries s.counts);
  pinned = s.pinned;
  presence = s.presence;
}

-- The counters are a Go map: no device stands twice.
abbrev pub IsState : PhraseState → Type 0
IsState s = IsMap (entries s.counts)

-- Field by field: the larger of the ids (which are one id when states merge), counters, flags.
pub join : View → View → View
join v w = record {
  object_id = pick compare_bytes v.object_id w.object_id;
  count = λ d. max (v.count d) (w.count d);
  pinned = choose_bool v.pinned w.pinned;
  presence = choose_presence v.presence w.presence;
}

-- The test that `MergePhrase` makes first.
abbrev pub mergeable : PhraseState → PhraseState → Bool
mergeable left right = not (is_empty left.object_id || not (same left.object_id right.object_id))

View-path :
    (v w : View)
    → v.object_id ≡ w.object_id
    → v.count ≡ w.count
    → v.pinned ≡ w.pinned
    → v.presence ≡ w.presence
    → v ≡ w
View-path v w p q r s = λ i. record { object_id = p i; count = q i; pinned = r i; presence = s i }

view-guarded :
    (b : Bool) (s : PhraseState) (v : View)
    → (b ≡ false → view s ≡ v)
    → result_map view (fail_if b different_phrase_objects >> ok s)
      ≡ (if not b then ok v else err different_phrase_objects)
view-guarded true s v e = refl
view-guarded false s v e = ap ok (e refl)

one_id :
    (left right : PhraseState)
    → (is_empty left.object_id || not (same left.object_id right.object_id)) ≡ false
    → left.object_id ≡ pick compare_bytes left.object_id right.object_id
one_id left right h = ground (
  arith,
  same_iff left.object_id right.object_id,
  compare_bytes-IsTotalOrder.self_eq left.object_id,
)

-- A merge succeeds exactly on two states of one object with an id, and is then seen as the join.
pub merge_phrase-join :
    (left right : PhraseState)
    → IsState right
    → result_map view (merge_phrase left right) ≡ (
        if mergeable left right
        then ok (join (view left) (view right))
        else err different_phrase_objects)
unfolding merge_phrase join
merge_phrase-join left right h = view-guarded _ _ _ λ passed.
    View-path _ _ (one_id left right passed)
      (fun_ext λ d. count_at-raise_counts (entries left.counts) (entries right.counts) d h) refl
      refl

module _ where
  abbrev bools : IsSemilattice choose_bool
  bools = choose_bool-IsSemilattice

  abbrev ids : IsSemilattice (pick compare_bytes)
  ids = pick-IsSemilattice compare_bytes compare_bytes-IsTotalOrder

  abbrev presences : IsSemilattice choose_presence
  presences = choose_presence-IsSemilattice

  pub join-IsSemilattice : IsSemilattice join
  unfolding join
  join-IsSemilattice = record {
    idem = λ v.
        View-path _ _ (ids.idem v.object_id) (fun_ext λ d. omega arith) (bools.idem v.pinned)
          (presences.idem v.presence);
    comm = λ v w.
        View-path _ _ (ids.comm v.object_id w.object_id) (fun_ext λ d. omega arith)
          (bools.comm v.pinned w.pinned) (presences.comm v.presence w.presence);
    assoc = λ u v w.
        View-path _ _ (ids.assoc u.object_id v.object_id w.object_id) (fun_ext λ d. omega arith)
          (bools.assoc u.pinned v.pinned w.pinned)
          (presences.assoc u.presence v.presence w.presence);
  }

object_id-join : (v w : View) → v.object_id ≡ w.object_id → (join v w).object_id ≡ v.object_id
unfolding join
object_id-join v w e =
    ground (arith, pick_idem compare_bytes compare_bytes-IsTotalOrder v.object_id, e)

-- A merge of states keeps the counters a map, and the object's id.
pub merge_phrase-IsState :
    (left right m : PhraseState)
    → IsState left
    → merge_phrase left right ≡ ok m
    → IsState m × (m.object_id ≡ left.object_id)
unfolding merge_phrase
merge_phrase-IsState left right m h e =
    ground (arith, raise_counts-IsMap (entries left.counts) (entries right.counts) h)

-- Merging a state of a named object, whose counters are a map, with itself is seen to change nothing.
pub merge_phrase_idem :
    (s : PhraseState)
    → IsState s
    → is_empty s.object_id ≡ false
    → result_map view (merge_phrase s s) ≡ ok (view s)
merge_phrase_idem s h e =
    rw (merge_phrase-join s s h, join-IsSemilattice.idem (view s))
      (ground (arith, same_iff s.object_id s.object_id))

-- The two orders of a merge of states whose counters are maps fail together or are seen alike.
pub merge_phrase_comm :
    (left right : PhraseState)
    → IsState left
    → IsState right
    → result_map view (merge_phrase left right) ≡ result_map view (merge_phrase right left)
merge_phrase_comm left right h k =
    rw (merge_phrase-join left right k, merge_phrase-join right left h)
      (grind (
        arith,
        same_iff left.object_id right.object_id,
        same_iff right.object_id left.object_id,
        join-IsSemilattice.comm (view left) (view right),
      ))

-- The merge of two views, with the test of `MergePhrase`.
abbrev merge_views : View → View → Result MergeError View
merge_views v w =
    if not (is_empty v.object_id || not (same v.object_id w.object_id))
    then ok (join v w)
    else err different_phrase_objects

left_first :
    (r : Result MergeError PhraseState) (c : PhraseState)
    → IsState c
    → result_map view (r >>= λ m. merge_phrase m c)
      ≡ (result_map view r >>= λ v. merge_views v (view c))
left_first (ok m) c l = merge_phrase-join m c l
left_first (err e) c l = refl

right_first :
    (r : Result MergeError PhraseState) (a : PhraseState)
    → ((m : PhraseState) → r ≡ ok m → IsState m)
    → result_map view (r >>= λ m. merge_phrase a m)
      ≡ (result_map view r >>= λ v. merge_views (view a) v)
right_first (ok m) a k = merge_phrase-join a m (k m refl)
right_first (err e) a k = refl

merge_views_assoc :
    (u v w : View)
    → (merge_views u v >>= λ x. merge_views x w) ≡ (merge_views v w >>= λ x. merge_views u x)
merge_views_assoc u v w = grind (
  arith,
  join-IsSemilattice.assoc u v w,
  object_id-join u v,
  object_id-join v w,
  same_iff u.object_id v.object_id,
  same_iff v.object_id w.object_id,
  same_iff u.object_id w.object_id,
)

-- Merging first the left pair or first the right pair, where the counters of the second and third
-- state are maps, fails alike or is seen alike.
pub merge_phrase_assoc :
    (a b c : PhraseState)
    → IsState b
    → IsState c
    → result_map view (merge_phrase a b >>= λ m. merge_phrase m c)
      ≡ result_map view (merge_phrase b c >>= λ m. merge_phrase a m)
merge_phrase_assoc a b c k l =
    result_map view (merge_phrase a b >>= λ m. merge_phrase m c)
    ≡⟨ left_first (merge_phrase a b) c l ⟩
      (result_map view (merge_phrase a b) >>= λ v. merge_views v (view c))
    ≡⟨ rw (merge_phrase-join a b k, merge_phrase-join b c l)
        (merge_views_assoc (view a) (view b) (view c)) ⟩
      (result_map view (merge_phrase b c) >>= λ v. merge_views (view a) v)
    ≡⟨ sym (right_first (merge_phrase b c) a (λ m e. (merge_phrase-IsState b c m k e).0)) ⟩
      result_map view (merge_phrase b c >>= λ m. merge_phrase a m) ∎
