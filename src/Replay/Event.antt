-- ===== src/Replay/Event.antt =====
-- replaylab/event.go: the bounded event record. UTF-8, JSON and time come from
-- Go's library and are fields of `Platform`; `fmt` texts of errors are constructors.
pub mod Validate
pub mod Candidates
use yunpin_ime.Base.{
  ℕ, zero, suc, ◌+◌, ◌-◌, ◌*◌, ◌%◌, ◌/◌, ◌^◌, Bool, true, false, not, ◌&&◌, ◌||◌, Option, none,
  some, List, [], ◌∷◌,
}
use yunpin_ime.Base.Tests.{ltb, leb, ◌==◌, if◌then◌else◌}
use yunpin_ime.Base.Lists.{length, get_elem?}
use yunpin_ime.Base.Int.{ℤ, pos, negsuc}
use yunpin_ime.Base.Bytes.{Bytes, ascii, same, is_empty}
use yunpin_ime.Base.Result.{Result, ok, err, ◌>>=◌, ◌>>◌, fail_if, with_error}

abbrev pub max_event_bytes : ℕ
max_event_bytes = 8 * 1024

abbrev pub max_candidates : ℕ
max_candidates = 8

abbrev pub max_episodes : ℕ
max_episodes = 1000000

abbrev pub max_edit_count : ℕ
max_edit_count = 1024

abbrev pub max_drop_count : ℕ
max_drop_count = 2 ^ 40

-- The strings of the nine constants, and any other string.
pub data EventType : Type 0 where
  composition_snapshot : EventType
  select : EventType
  commit : EventType
  backspace : EventType
  delete : EventType
  abort : EventType
  pause : EventType
  resume : EventType
  drop_count : EventType
  other : Bytes → EventType

pub record Candidate : Type 0 where
  pub text : Bytes
  pub is_correction : Bool
  pub highlighted : Bool

pub record Composition : Type 0 where
  pub raw_input : Bytes
  pub normalized_pinyin : Bytes
  pub caret_byte : ℤ
  pub exact_path_available : Bool
  pub candidates : List Candidate

pub record Selection : Type 0 where
  pub rank : ℤ
  pub text : Bytes

pub record Commit : Type 0 where
  pub text : Bytes
  pub source : Bytes

pub record FinalText : Type 0 where
  pub text : Bytes
  pub scope : Bytes
  pub confidence : Bytes

pub record Event : Type 0 where
  pub version : Bytes
  pub session_id : Bytes
  pub episode_id : Bytes
  pub seq : ℕ
  pub monotonic_us : ℕ
  pub utc : Bytes
  pub type : EventType
  pub composition : Option Composition
  pub selection : Option Selection
  pub commit_part : Option Commit
  pub edit_count : ℕ
  pub dropped : ℕ
  pub final_text : Option FinalText

pub data EventError : Type 0 where
  unsupported_version : EventError
  invalid_ids : EventError
  seq_starts_at_one : EventError
  utc_not_canonical : EventError
  text_not_utf8 : EventError
  text_empty : EventError
  text_too_long : EventError
  text_has_nul : EventError
  caret_outside : EventError
  caret_splits_rune : EventError
  too_many_candidates : EventError
  many_highlighted : EventError
  selection_alone : EventError
  rank_outside : EventError
  selection_text_differs : EventError
  unsupported_source : EventError
  unsupported_scope : EventError
  unsupported_confidence : EventError
  only_composition : EventError
  only_selection : EventError
  commit_parts_missing : EventError
  commit_text_differs : EventError
  edit_count_outside : EventError
  unexpected_counters : EventError
  unsupported_payload : EventError
  drop_count_outside : EventError
  unsupported_type : EventError
  not_encodable : EventError
  event_too_long : EventError
  event_empty : EventError
  not_decodable : EventError
  trailing_data : EventError

-- What the code calls of Go's library: `utf8.ValidString`, `time.Parse` and `Format` with
-- RFC3339Nano, the test of the location, the instant that `Before` compares, the zero time that a
-- failed parse returns, `json.Marshal`, a decoder's first value with the bytes after it,
-- and whether a second `Decode` meets the end there.
pub record Platform (Time : Type 0) : Type 0 where
  pub valid_string : Bytes → Bool
  pub parse_time : Bytes → Option Time
  pub in_utc : Time → Bool
  pub format_time : Time → Bytes
  pub instant : Time → ℤ
  pub zero_time : Time
  pub marshal : Event → Option Bytes
  pub unmarshal : Bytes → Option (Event × Bytes)
  pub at_end : Bytes → Bool
