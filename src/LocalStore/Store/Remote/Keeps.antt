-- ===== src/LocalStore/Store/Remote/Keeps.antt =====
-- `MergeRemotePayload` keeps the tables sound.
use yunpin_ime.Base.Bytes.{Bytes}
use yunpin_ime.Base.Ensures.{Ensures}
use yunpin_ime.LocalStore.Phrase.{Phrase}
