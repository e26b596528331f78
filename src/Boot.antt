-- ===== src/Boot.antt =====
-- samples/mesh/src/main.c, the part of `main` that gives the node its identity.
pub mod Identity
use g_sierra.Common.{ℕ, Bool, true, List, if◌then◌else◌}
use g_sierra.Common.Int.{ℤ, is_nonzero}
use g_sierra.Node.{CustomUuid, Node, points_to, generate_id, uuid_to_str, uuid_str_len}
use g_sierra.Sram.{sram_store, sram_load}

-- The globals `n` and `uuid_str` of main.c, and `backup_value` of sram_setup.c.
pub record Globals : Type 0 where
  pub n : Node
  pub uuid_str : List ℕ
  pub backup_value : List ℕ

-- What the platform answers during a boot: `device_is_ready`, `k_uptime_get` and the two calls
-- of `sys_rand32_get`.
pub record Platform : Type 0 where
  pub sram_ready : Bool
  pub uptime : ℕ
  pub rand1 : ℕ
  pub rand2 : ℕ

-- The branch on a failed load: a new id, its text in `uuid_str`, and a store whose result is
-- dropped.
fresh_identity : Platform → CustomUuid → List ℕ → Globals
fresh_identity p id backup =
    let bytes = generate_id p.uptime p.rand1 p.rand2 in
    let text = uuid_to_str bytes uuid_str_len in
    let named : CustomUuid = record id { uuid = bytes; str = points_to text } in
    let (ret, backup') = sram_store p.sram_ready named backup in
    record { n = record { id = named; status = true }; uuid_str = text; backup_value = backup' }

kept_identity : CustomUuid → List ℕ → Globals
kept_identity id backup =
    let text = uuid_to_str id.uuid uuid_str_len in
    record {
      n = record { id = record id { str = points_to text }; status = true };
      uuid_str = text;
      backup_value = backup;
    }

-- `main` from its first statement to `n.status = true`.
unfoldable pub boot : Platform → Globals → Globals
unfolding fresh_identity kept_identity
boot p g =
    let (ret, id) = sram_load p.sram_ready g.n.id g.backup_value in
    if is_nonzero ret then fresh_identity p id g.backup_value else kept_identity id g.backup_value
