-- ===== src/Protocol/Crdt/Converge.antt =====
-- Replicas that have merged the same states, in any order and any number of times, look alike.
use yunpin_ime.Base.{◌≡◌, refl, ap, ◌∙◌, true, false, List, [], ◌∷◌, map, arith}
use yunpin_ime.Base.Lists.{All}
use yunpin_ime.Base.Bytes.{Bytes, is_empty, same_iff}
use yunpin_ime.Base.Result.{Result, ok, err, ◌>>=◌, result_map}
use yunpin_ime.Base.Semilattice.{In, first, later, join_all, join_all_same}
use yunpin_ime.Protocol.Crdt.{PhraseState, MergeError, merge_phrase}
use yunpin_ime.Protocol.Crdt.Merge.{
  View, view, join, join-IsSemilattice, IsState, mergeable, merge_phrase-join, merge_phrase-IsState,
}

-- A replica that merges the states that it receives, one after the other.
pub merge_all : PhraseState → List PhraseState → Result MergeError PhraseState
merge_all s [] = ok s
merge_all s (x ∷ xs) = merge_phrase s x >>= λ m. merge_all m xs

-- A state of the object, its counters a map.
pub record IsOf (id : Bytes) (s : PhraseState) : Type 0 where
  pub of : s.object_id ≡ id
  pub counted : IsState s

mapped :
    (r : Result MergeError PhraseState) (w : View)
    → result_map view r ≡ ok w
    → (m : PhraseState) × (r ≡ ok m) × (view m ≡ w)
mapped (ok m) w h = (m, refl, cc)
mapped (err e) w h = cc

mergeable_of_one :
    (id : Bytes) (s x : PhraseState)
    → is_empty id ≡ false
    → s.object_id ≡ id
    → x.object_id ≡ id
    → mergeable s x ≡ true
mergeable_of_one id s x named p q = ground (arith, same_iff s.object_id x.object_id)

module _ (id : Bytes) (named : is_empty id ≡ false) where
  step :
      (s x : PhraseState)
      → IsOf id s
      → IsOf id x
      → (m : PhraseState) × (merge_phrase s x ≡ ok m)
        × (view m ≡ join (view s) (view x))
        × IsOf id m
  step s x p q =
      let (m, merged, seen) =
        mapped (merge_phrase s x) (join (view s) (view x))
          (rw (merge_phrase-join s x q.counted, mergeable_of_one id s x named p.of q.of)) in
      let kept = merge_phrase-IsState s x m p.counted merged in
      (m, merged, seen, record { of = kept.1 ∙ p.of; counted = kept.0 })

  merge_all-join :
      (s : PhraseState) (xs : List PhraseState)
      → IsOf id s
      → All (IsOf id) xs
      → result_map view (merge_all s xs) ≡ ok (join_all join (view s) (map view xs))
  unfolding merge_all
  merge_all-join s [] p q = refl
  merge_all-join s (x ∷ xs) p q =
      let (m, merged, seen, kept) = step s x p q.0 in
      rw merged (merge_all-join m xs kept q.1 ∙ ap (λ v. ok (join_all join v (map view xs))) seen)

of_image :
    {v : View} (xs : List PhraseState)
    → In v (map view xs)
    → (x : PhraseState) × In x xs × (v ≡ view x)
of_image [] h = elim h [ ]
of_image (x ∷ xs) (first e) = (x, first refl, e)
of_image (x ∷ xs) (later h) = let (y, m, e) = of_image xs h in (y, later m, e)

In-image :
    {v : View} (x : PhraseState) (xs : List PhraseState) → In x xs → v ≡ view x → In v (map view xs)
In-image x [] h e = elim h [ ]
In-image x (y ∷ ys) (first p) e = first (e ∙ ap view p)
In-image x (y ∷ ys) (later m) e = later (In-image x ys m e)

In-map :
    (v : View) (xs ys : List PhraseState)
    → ((x : PhraseState) → In x xs → In x ys)
    → In v (map view xs)
    → In v (map view ys)
In-map v xs ys h m = let (x, at, e) = of_image xs m in In-image x ys (h x at) e

-- Strong eventual consistency: for states of one named object whose counters are maps, what a
-- replica shows depends only on which states it has merged, not on their order or number, and no
-- merge fails.
pub merge_all-converges :
    (id : Bytes)
    → is_empty id ≡ false
    → (s : PhraseState) (xs ys : List PhraseState) → IsOf id s
    → All (IsOf id) xs
    → All (IsOf id) ys
    → ((x : PhraseState) → In x xs → In x ys)
    → ((x : PhraseState) → In x ys → In x xs)
    → (v : View) × (result_map view (merge_all s xs) ≡ ok v)
      × (result_map view (merge_all s ys) ≡ ok v)
merge_all-converges id named s xs ys p q r h k = (
  join_all join (view s) (map view ys),
  merge_all-join id named s xs p q
      ∙ ap ok (
          join_all_same join join-IsSemilattice (view s) (map view xs) (map view ys)
            (λ v. In-map v xs ys h) (λ v. In-map v ys xs k)),
  merge_all-join id named s ys p r,
)
