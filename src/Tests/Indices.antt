-- ===== src/Tests/Indices.antt =====
-- src/engine/dispatcher.rs: the tables of two interfaces, and of one that is configured later.
use mathlib.Core.List.{Memᴰ}
use nic_autoswitch.Common.{
  ℕ, ◌≡◌, refl, sym, ◌⊎◌, inl, inr, some, [], ◌∷◌, arith, Text, Text-discrete, Text-eq, ℕ-eq, keys,
  get,
}
use nic_autoswitch.Config.{Config}
use nic_autoswitch.Engine.Dispatcher.{get_table_id_for_interface, update_config}
use nic_autoswitch.Engine.Dispatcher.Indices.{IsInjective, IsBelow, update_config_collides}
use nic_autoswitch.Engine.Dispatcher.Reloaded.{update_config-keeps}
use nic_autoswitch.Tests.Samples.{
  eth0, wlan0, vpn0, sample_interface, sample_config, sample_dispatcher,
}

index_cases :
    (a : Text) (i : ℕ)
    → get a sample_dispatcher.interface_indices ≡ some i
    → ((a ≡ eth0) × (i ≡ 0)) ⊎ ((a ≡ wlan0) × (i ≡ 1))
unfolding get
index_cases a i ha = elim (Text-discrete eth0 a) [
  | yes first ↦ inl (sym first, ground (arith, first))
  | no ne ↦ elim (Text-discrete wlan0 a) [
    | yes second ↦ inr (sym second, ground (arith, ne, second))
    | no ne' ↦ absurd (ground arith)
  ]
]

pub sample-IsInjective : IsInjective sample_dispatcher.interface_indices
sample-IsInjective a b i ha hb = ground (arith, index_cases a i ha, index_cases b i hb)

pub sample-IsBelow : IsBelow 2 sample_dispatcher.interface_indices
sample-IsBelow a i ha = ground (arith, index_cases a i ha)

abbrev without_eth0 : Config
without_eth0 = record sample_config { interfaces = (wlan0, sample_interface wlan0) ∷ [] }

abbrev with_vpn0 : Config
with_vpn0 = record sample_config {
  interfaces = (wlan0, sample_interface wlan0) ∷ (vpn0, sample_interface vpn0) ∷ [];
}

update_config_collides_example :
    (get_table_id_for_interface vpn0
      (update_config with_vpn0 (update_config without_eth0 sample_dispatcher))).0
    ≡ (get_table_id_for_interface wlan0
        (update_config with_vpn0 (update_config without_eth0 sample_dispatcher))).0
unfolding keys
update_config_collides_example =
    update_config_collides eth0 wlan0 vpn0 without_eth0 with_vpn0 sample_dispatcher (ground arith)
      (ground arith) refl refl refl

update_config-keeps_example :
    get wlan0 (update_config without_eth0 sample_dispatcher).interface_indices ≡ some 1
unfolding keys get Text-discrete
update_config-keeps_example =
    update_config-keeps without_eth0 sample_dispatcher wlan0 1 refl (Memᴰ.head refl)
