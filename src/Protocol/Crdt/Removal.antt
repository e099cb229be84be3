-- ===== src/Protocol/Crdt/Removal.antt =====
-- Removal and re-adding: the generation decides first, then a removal dominates.
use yunpin_ime.Base.{◌≡◌, ◌&&◌, arith, max}
use yunpin_ime.Base.Tests.{◌==◌, ltb, if◌then◌else◌}
use yunpin_ime.Base.Result.{ok}
use yunpin_ime.Protocol.Crdt.{PhraseState, merge_phrase, choose_presence}

-- A merged phrase has the newer generation. It is present exactly if that generation's states all
-- say so: within one generation a removal wins, whatever the clocks say, and only a newer
-- generation brings a removed phrase back.
pub merge_phrase-presence :
    (left right m : PhraseState)
    → merge_phrase left right ≡ ok m
    → (m.presence.generation ≡ max left.presence.generation right.presence.generation)
      × (m.presence.present ≡ (
          if left.presence.generation == right.presence.generation
          then left.presence.present && right.presence.present
          else if ltb left.presence.generation right.presence.generation
          then right.presence.present
          else left.presence.present))
unfolding merge_phrase choose_presence
merge_phrase-presence left right m e = ground arith
