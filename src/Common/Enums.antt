-- ===== src/Common/Enums.antt =====
-- src/common/enums.ts, with the equality tests that SQL and JavaScript make on the values.
use osm_sync_tracker.Prelude.{Bool, true, false, ◌≡◌, arith}

pub data Status : Type 0 where
  in_progress completed failed : Status

pub data ActionType : Type 0 where
  create modify delete : ActionType

pub data EntityStatus : Type 0 where
  in_progress completed not_synced failed in_rerun : EntityStatus

pub data GeometryType : Type 0 where
  point linestring polygon : GeometryType

abbrev pub status_eq : Status → Status → Bool
status_eq Status.in_progress Status.in_progress = true
status_eq Status.completed Status.completed = true
status_eq Status.failed Status.failed = true
status_eq _ _ = false

abbrev pub entity_status_eq : EntityStatus → EntityStatus → Bool
entity_status_eq EntityStatus.in_progress EntityStatus.in_progress = true
entity_status_eq EntityStatus.completed EntityStatus.completed = true
entity_status_eq EntityStatus.not_synced EntityStatus.not_synced = true
entity_status_eq EntityStatus.failed EntityStatus.failed = true
entity_status_eq EntityStatus.in_rerun EntityStatus.in_rerun = true
entity_status_eq _ _ = false

abbrev pub geometry_type_eq : GeometryType → GeometryType → Bool
geometry_type_eq GeometryType.point GeometryType.point = true
geometry_type_eq GeometryType.linestring GeometryType.linestring = true
geometry_type_eq GeometryType.polygon GeometryType.polygon = true
geometry_type_eq _ _ = false

pub status_eq→eq : (a b : Status) → status_eq a b ≡ true → a ≡ b
status_eq→eq a b h = ground arith

pub status_eq_refl : (a : Status) → status_eq a a ≡ true
status_eq_refl a = ground arith
