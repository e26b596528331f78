-- ===== src/Sram.antt =====
-- samples/mesh/src/sram_setup.c: the UUID in the backup SRAM. The array `backup_value` is passed
-- and returned; `ready` is what `device_is_ready` answers for the SRAM's device.
use g_sierra.Common.{ℕ, Bool, not, List, if◌then◌else◌}
use g_sierra.Common.Int.{ℤ, pos, negsuc}
use g_sierra.Node.{CustomUuid, dangling, uuid_str_len, uuid_to_str, is_valid_uuid_v6}

-- The return value and `backup_value` afterwards.
unfoldable pub sram_store : Bool → CustomUuid → List ℕ → ℤ × List ℕ
sram_store ready id backup = if not ready then (negsuc 0, backup) else (pos 0, id.uuid)

-- The return value and `*uuid` afterwards. The text is checked through a local array, to which the
-- member `str` points when the function has returned.
unfoldable pub sram_load : Bool → CustomUuid → List ℕ → ℤ × CustomUuid
sram_load ready id backup =
    if not ready
    then (negsuc 0, id)
    else if not (is_valid_uuid_v6 (uuid_to_str backup uuid_str_len))
    then (negsuc 0, loaded)
    else (pos 0, loaded)
  where
    loaded : CustomUuid
    loaded = record { uuid = backup; str = dangling }
