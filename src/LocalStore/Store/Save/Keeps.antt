-- ===== src/LocalStore/Store/Save/Keeps.antt =====
-- `SaveExplicit` and `Delete` keep the tables sound, and what an explicit save leaves.
use yunpin_ime.Base.Bytes.{Bytes}
use yunpin_ime.Base.Ensures.{Ensures}
use yunpin_ime.LocalStore.Phrase.{Phrase}
