-- ===== src/WriteFile.antt =====
-- `os.WriteFile` as internal/apikey/apikey.go and pkg/store/ws_config.go use it: the file is truncated before
-- it is written, so a write that breaks off leaves a part of the new text.
use ts_store.Prelude.{ℕ, Option, some, take}
use ts_store.Prelude.Equality.{Bytes}

-- The write is done, or fails before the file is opened, or breaks off behind that many bytes.
pub data Write : Type 0 where
  written unreached : Write
  torn : ℕ → Write

-- The content behind the write of the text, where the file held `old`.
unfoldable pub write_file : Write → Bytes → Option Bytes → Option Bytes
write_file written bs old = some bs
write_file unreached bs old = old
write_file (torn n) bs old = some (take n bs)
