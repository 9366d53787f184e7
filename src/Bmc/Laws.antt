-- ===== src/Bmc/Laws.antt =====
-- Which client a configuration selects, and what the cache of the probes promises.
use omni_infra_provider_bare.Base.{
  String, arith, eq_iff, false, refl, some, true, ◌↔◌, ◌≡◌, ◌≢◌, ◌⊎◌,
}
use omni_infra_provider_bare.Base.Dict.{lookup, lookup-insert}
use omni_infra_provider_bare.Resources.{BmcConfiguration, Ipmi}
use omni_infra_provider_bare.Effects.{Error, PxeMode, err, ok}
use omni_infra_provider_bare.Bmc.{
  Cache, Endpoints, FactoryOptions, api_client, cache_key, capabilities_of, factory_get_client,
  manual_client, over_network, redfish_available, redfish_client,
}
use omni_infra_provider_bare.Bmc.Backends.{
  Operation, efi, force_pxe, ipmi_operation, is_powered_on_op, is_supported, legacy,
  manual_operation, not_supported, parse_boot_mode, power_off_op, power_on_op, reboot_op,
  reset_boot_device_op, set_pxe_boot_once_op,
}

module _ (options : FactoryOptions) where
  -- The cache remembers a machine's probe: after a client was selected over the network, the next
  -- selection for the same machine and the same address writes nothing, and chooses Redfish exactly if
  -- the first one did, whatever the machine's BMC answers then.
  pub probed_once :
      (ends later : Endpoints) (id : String) (info : Ipmi) (cache : Cache)
      → let after = (over_network options ends id info cache).1 in
        ((over_network options later id info after).1 ≡ after)
        × (((over_network options later id info after).0 ≡ ok redfish_client)
            ↔ ((over_network options ends id info cache).0 ≡ ok redfish_client))
  unfolding over_network redfish_available
  probed_once ends later id info cache = ground (
    arith,
    lookup-insert (cache_key id info) (cache_key id info) true cache,
    lookup-insert (cache_key id info) (cache_key id info) false cache,
    eq_iff (cache_key id info) (cache_key id info),
  )

  -- Machines are kept apart: selecting a client changes no cached probe but that of its own key, the
  -- machine with the address of its BMC.
  pub others_kept :
      (ends : Endpoints) (c : BmcConfiguration) (info : Ipmi) (cache : Cache)
      → c.ipmi ≡ some info
      → (key : String) → cache_key c.id info ≢ key
      → lookup key (factory_get_client options ends (some c) cache).1 ≡ lookup key cache
  unfolding factory_get_client over_network redfish_available
  others_kept ends c info cache h key n = ground (
    arith,
    lookup-insert (cache_key c.id info) key true cache,
    lookup-insert (cache_key c.id info) key false cache,
    eq_iff (cache_key c.id info) key,
  )

  -- The precedence of the configurations: a client is manual exactly for a configuration with the
  -- manual field, and one for the API exactly for a configuration with an address of the API and
  -- without the manual field; neither touches the cache.
  pub precedence :
      (ends : Endpoints) (c : BmcConfiguration) (cache : Cache)
      → (((factory_get_client options ends (some c) cache).0 ≡ ok manual_client)
          ↔ (c.manual ≡ true))
        × (((factory_get_client options ends (some c) cache).0 ≡ ok api_client)
            ↔ ((c.manual ≡ false) × ((a : String) × (c.api ≡ some a))))
  unfolding factory_get_client over_network redfish_available
  precedence ends c cache = ground arith

-- Capabilities are honest for a machine without a BMC: an operation of the manual client fails exactly
-- if it is one that the capabilities of that client rule out.
pub manual_honest :
    (op : Operation)
    → (is_supported (capabilities_of manual_client) op ≡ false)
      ↔ ((e : Error) × (manual_operation op ≡ err e))
unfolding is_supported capabilities_of manual_operation
manual_honest reboot_op = (λ _. (not_supported, refl), λ _. refl)
manual_honest power_on_op = (λ _. (not_supported, refl), λ _. refl)
manual_honest power_off_op = (λ _. (not_supported, refl), λ _. refl)
manual_honest is_powered_on_op = (λ _. (not_supported, refl), λ _. refl)
manual_honest reset_boot_device_op = (λ _. (not_supported, refl), λ _. refl)
manual_honest (set_pxe_boot_once_op _) = (λ _. (not_supported, refl), λ _. refl)

-- A boot mode that was parsed from the options is one that the IPMI client can set, for the next boot
-- over the network, and it is the one that was named.
pub parsed_mode_set :
    (s : String) (m : PxeMode)
    → parse_boot_mode s ≡ ok m
    → ((s ≡ "bios") × (ipmi_operation (set_pxe_boot_once_op m) ≡ ok (force_pxe legacy)))
      ⊎ ((s ≡ "uefi") × (ipmi_operation (set_pxe_boot_once_op m) ≡ ok (force_pxe efi)))
unfolding parse_boot_mode ipmi_operation
parsed_mode_set s m h = ground (arith, eq_iff s "bios", eq_iff s "uefi")
