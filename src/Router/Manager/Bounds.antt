-- ===== src/Router/Manager/Bounds.antt =====
-- src/router/manager.rs: which managers there are, and which tables they can name.
use nic_autoswitch.Common.{ℕ, ◌+◌, ◌%◌, ◌≤◌, ◌≡◌, ◌↔◌, ◌⊎◌, Bool, true, false, arith, Text-eq, ℕ-eq}
use nic_autoswitch.Error.{ok}
use nic_autoswitch.Router.Manager.Base.{table_id_to_u8, RouteManager, with_connection, table_id_v4}

created_bounds :
    (connects : Bool) (base : ℕ) (dry : Bool) (rm : RouteManager)
    → with_connection connects base dry ≡ ok rm
    → (100 ≤ base) × (base ≤ 199) × ((dry ≡ true) ⊎ (connects ≡ true)) × (rm.base_table_id ≡ base)
unfolding with_connection
created_bounds connects base dry rm h = ground arith

created :
    (connects : Bool) (base : ℕ) (dry : Bool)
    → 100 ≤ base
    → base ≤ 199
    → (dry ≡ true) ⊎ (connects ≡ true)
    → (rm : RouteManager) × (with_connection connects base dry ≡ ok rm)
unfolding with_connection
created connects base true low high h =
    (record { base_table_id = base; dry_run = true; handle = false }, ground arith)
created true base false low high h =
    (record { base_table_id = base; dry_run = false; handle = true }, ground arith)
created false base false low high h = absurd (ground arith)

-- A manager is created exactly if its first table lies in 100 to 199, and it runs dry or the
-- connection succeeds.
pub with_connection_iff :
    (connects : Bool) (base : ℕ) (dry : Bool)
    → ((rm : RouteManager) × (with_connection connects base dry ≡ ok rm))
      ↔ ((100 ≤ base) × (base ≤ 199) × ((dry ≡ true) ⊎ (connects ≡ true)))
with_connection_iff connects base dry = (
  λ (rm, h). let (low, high, can, same) = created_bounds connects base dry rm h in (low, high, can),
  λ (low, high, can). created connects base dry low high can,
)

-- The tables of a manager that was created fit the byte of a message up to index 56.
pub table_id_to_u8-table_id_v4 :
    (connects : Bool) (base : ℕ) (dry : Bool) (rm : RouteManager) (index : ℕ)
    → with_connection connects base dry ≡ ok rm
    → index ≤ 56
    → table_id_to_u8 (table_id_v4 rm index) ≡ ok (base + index)
unfolding table_id_to_u8 table_id_v4
table_id_to_u8-table_id_v4 connects base dry rm index h small =
    let (low, high, can, same) = created_bounds connects base dry rm h in
    let fits : (base + index) % 256 ≡ base + index = ground arith in
    rw same (rw fits (ground arith))
