-- ===== src/Replay/Event/Candidates.antt =====
-- replaylab/event.go: what the validation of an event guarantees of its selection.
use yunpin_ime.Base.{zero, suc, subst, inl, inr, ◌≡◌, refl, arith, ℕ, ◌+◌, some}
use yunpin_ime.Base.Tests.{Option-cases}
use yunpin_ime.Base.Lists.{get_elem?}
use yunpin_ime.Base.Int.{ℤ, pos, negsuc}
use yunpin_ime.Base.Bytes.{same_iff}
use yunpin_ime.Base.Result.{ok}
use yunpin_ime.Replay.Event.{Composition, Selection, Candidate, Event, Platform}
use yunpin_ime.Replay.Event.Validate.{validate, validate_selection}

module _ {Time : Type 0} (g : Platform Time) where
  selection-checked :
      (e : Event) → validate g e ≡ ok tt → validate_selection e.composition e.selection ≡ ok tt
  unfolding validate
  selection-checked e h = ground arith

  named_candidate :
      (c : Composition) (s : Selection) (rank : ℤ)
      → s.rank ≡ rank
      → validate_selection (some c) (some s) ≡ ok tt
      → (i : ℕ) × (candidate : Candidate) × (s.rank ≡ pos (i + 1))
        × (get_elem? c.candidates i ≡ some candidate)
        × (s.text ≡ candidate.text)
  unfolding validate_selection
  named_candidate c s (negsuc n) r h = ground arith
  named_candidate c s (pos zero) r h = ground arith
  named_candidate c s (pos (suc n)) r h = elim (Option-cases (get_elem? c.candidates n)) [
    | inl missing ↦ ground arith
    | inr (candidate, found) ↦
        (n, candidate, ground arith, found, ground (arith, same_iff s.text candidate.text))
  ]

  -- A valid selection names a candidate of its composition by a one-based rank, with its text.
  pub validate-selection :
      (e : Event) (c : Composition) (s : Selection)
      → validate g e ≡ ok tt
      → e.composition ≡ some c
      → e.selection ≡ some s
      → (i : ℕ) × (candidate : Candidate) × (s.rank ≡ pos (i + 1))
        × (get_elem? c.candidates i ≡ some candidate)
        × (s.text ≡ candidate.text)
  validate-selection e c s h p q =
      let selected = selection-checked e h in
      named_candidate c s s.rank refl (
        subst (λ o. validate_selection o (some s) ≡ ok tt) p
          (subst (λ o. validate_selection e.composition o ≡ ok tt) q selected))
