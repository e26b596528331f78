-- ===== src/Boot/Identity.antt =====
-- What `main` guarantees of the node's identity, and that it survives a reset.
use g_sierra.Common.{ℕ, ◌/◌, ◌%◌, ◌≡◌, Bool, true, false, ◌&&◌, List, ◌==◌, if◌then◌else◌, arith}
use g_sierra.Common.Int.{pos, negsuc}
use g_sierra.Node.{
  CustomUuid, Node, points_to, byte_at, uuid_str_len, uuid_to_str, is_valid_uuid_v6, generate_id,
}
use g_sierra.Node.Format.{is_valid_uuid_v6-uuid_to_str}
use g_sierra.Node.Generate.{generate_id_valid}
use g_sierra.Sram.{sram_store, sram_load}
use g_sierra.Boot.{Globals, Platform, boot}

-- `sram_load` returns 0 exactly when the device is ready and the stored bytes carry the version 6,
-- and -1 otherwise; a ready device's bytes are copied in either case.
pub sram_load_lem :
    (ready : Bool) (id : CustomUuid) (backup : List ℕ)
    → ((sram_load ready id backup).0
        ≡ (if ready && (byte_at backup 6 / 16 % 16 == 6) then pos 0 else negsuc 0))
      × ((sram_load ready id backup).1.uuid ≡ (if ready then backup else id.uuid))
unfolding sram_load
sram_load_lem ready id backup = ground (arith, is_valid_uuid_v6-uuid_to_str backup)

-- What `sram_store` has stored of a version 6 UUID on a ready device, `sram_load` gives back.
pub sram_load-sram_store :
    (id any : CustomUuid) (backup : List ℕ)
    → is_valid_uuid_v6 (uuid_to_str id.uuid uuid_str_len) ≡ true
    → let (ret, backup') = sram_store true id backup in
      ((sram_load true any backup').0 ≡ pos 0) × ((sram_load true any backup').1.uuid ≡ id.uuid)
unfolding sram_load sram_store
sram_load-sram_store id any backup h = ground arith

-- After the boot the node is active, its text is that of its bytes and passes the check, and the
-- pointer is to the global buffer, never to the dead local of `sram_load`.
pub record IsNamed (g : Globals) : Type 0 where
  pub active : g.n.status ≡ true
  pub text : g.uuid_str ≡ uuid_to_str g.n.id.uuid uuid_str_len
  pub pointer : g.n.id.str ≡ points_to g.uuid_str
  pub valid : is_valid_uuid_v6 g.uuid_str ≡ true

-- Whatever the SRAM holds and the platform answers, `main` leaves the node named.
pub boot-IsNamed : (p : Platform) (g : Globals) → IsNamed (boot p g)
unfolding boot sram_load
boot-IsNamed p g = ground (arith, generate_id_valid p.uptime p.rand1 p.rand2)

-- On a ready device the SRAM holds the node's bytes when the boot is done.
backup-boot :
    (p : Platform) (g : Globals)
    → p.sram_ready ≡ true
    → (boot p g).backup_value ≡ (boot p g).n.id.uuid
unfolding boot sram_load sram_store
backup-boot p g h = ground arith

-- A boot over a valid SRAM takes the stored identity.
boot_valid :
    (p : Platform) (g : Globals)
    → p.sram_ready ≡ true
    → is_valid_uuid_v6 (uuid_to_str g.backup_value uuid_str_len) ≡ true
    → ((boot p g).n.id.uuid ≡ g.backup_value) × ((boot p g).backup_value ≡ g.backup_value)
unfolding boot sram_load sram_store
boot_valid p g h v = ground arith

-- A reset keeps the backup SRAM and nothing else; `n'` and `text'` are whatever the globals hold.
abbrev pub reset : Globals → Node → List ℕ → Globals
reset g n' text' = record g { n = n'; uuid_str = text' }

-- The identity survives a reset: with a ready SRAM at both boots, the second boot has the id of the
-- first, whatever the uptime and the random words are then.
pub boot-reset-boot :
    (p q : Platform) (g : Globals) (n' : Node) (text' : List ℕ)
    → p.sram_ready ≡ true
    → q.sram_ready ≡ true
    → (boot q (reset (boot p g) n' text')).n.id.uuid ≡ (boot p g).n.id.uuid
boot-reset-boot p q g n' text' hp hq =
    ground
      (arith, boot_valid q (reset (boot p g) n' text') hq, backup-boot p g hp, boot-IsNamed p g)

-- Without the SRAM's device no identity is kept: the node takes a new id, and the SRAM is as before.
pub boot_not_ready :
    (p : Platform) (g : Globals)
    → p.sram_ready ≡ false
    → ((boot p g).n.id.uuid ≡ generate_id p.uptime p.rand1 p.rand2)
      × ((boot p g).backup_value ≡ g.backup_value)
unfolding boot sram_load sram_store
boot_not_ready p g h = ground arith
