-- ===== src/LocalStore/Store/Text.antt =====
-- What the store relies on of its libraries, and the texts of records: `json.Marshal` replaces what is
-- not UTF-8 in a string, so a record is read back as it was where all its strings are UTF-8.
use yunpin_ime.Base.{◌≡◌, arith, inl, inr, Bool, true, ◌&&◌, some, [], ◌∷◌}
use yunpin_ime.Base.Tests.{ltb, Option-cases}
use yunpin_ime.Base.Bytes.{Bytes}
use yunpin_ime.Base.Text.{hex_encode, trim_space}
use yunpin_ime.LocalStore.Phrase.{Phrase}
use yunpin_ime.LocalStore.Phrase.Utf8.{is_utf8}
use yunpin_ime.LocalStore.Store.{Vault, seal_phrase, open_phrase}

abbrev pub all_ascii : Bytes → Bool
all_ascii [] = true
all_ascii (c ∷ cs) = ltb c 128 && all_ascii cs

-- `utf8.ValidString` and the libraries that a store calls. The id of its device is UTF-8.
pub record IsVault {Row : Type 0} (v : Vault Row) : Type 0 where
  pub valid_string : Bytes → Bool
  pub ascii_valid : (s : Bytes) → all_ascii s ≡ true → valid_string s ≡ true
  pub hex_valid : (id : Bytes) → valid_string (hex_encode id) ≡ true
  pub trim_valid : (s : Bytes) → valid_string s ≡ true → valid_string (trim_space s) ≡ true
  pub device_valid : valid_string v.device_id ≡ true
  pub unmarshal-marshal :
      (p : Phrase) (plain : v.Json)
      → is_utf8 valid_string p ≡ true
      → v.marshal p ≡ some plain
      → v.unmarshal plain ≡ some p
  pub aead_open-seal :
      (key id : Bytes) (plain : v.Json) (row : Row)
      → v.aead_seal key id plain ≡ some row
      → v.aead_open key id row ≡ some plain

-- A record of UTF-8 strings that was sealed is opened to itself.
pub open_phrase-seal :
    {Row : Type 0} (v : Vault Row) (laws : IsVault v) (id : Bytes) (p : Phrase) (row : Row)
    → is_utf8 laws.valid_string p ≡ true
    → seal_phrase v id p ≡ some row
    → open_phrase v id row ≡ some p
unfolding seal_phrase open_phrase
open_phrase-seal v laws id p row u h = elim (Option-cases (v.marshal p)) [
  | inl failed ↦ ground arith
  | inr (plain, made) ↦ elim (Option-cases (v.record_key id)) [
    | inl failed ↦ ground arith
    | inr (key, derived) ↦
        let sealed : v.aead_seal key id plain ≡ some row = ground arith in
        rw (open_phrase, derived, laws.aead_open-seal key id plain row sealed)
          (laws.unmarshal-marshal p plain u made)
  ]
]
