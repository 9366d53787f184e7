-- ===== src/Dhcp/Interface.antt =====
-- determineInterface of internal/provider/dhcp/proxy.go: the interface that the proxy listens on. The
-- network is a parameter.
use omni_infra_provider_bare.Base.{
  Bool, Bool-cases, Bytes, List, Option, String, [], any, arith, false, if◌then◌else◌, inl, inr,
  none, refl, some, str_eq, true, ◌||◌, ◌∷◌, ◌≡◌, ◌⊎◌,
}
use omni_infra_provider_bare.Effects.{Result, err, ok}

-- An interface with its addresses, of which those that have no IP are `none`; an error of listing them is
-- only logged, and leaves what was listed.
pub record NetInterface : Type 0 where
  pub name : String
  pub addresses : List (Option Bytes)

-- net.Interfaces, net.ParseIP and Equal of two IPs.
pub record Network : Type 0 where
  pub interfaces : Result String (List NetInterface)
  pub parse_ip : String → Option Bytes
  pub equal_ip : Bytes → Bytes → Bool

pub data InterfaceError : Type 0 where
  no_interfaces no_interface_for : String → InterfaceError

module _ (net : Network) (iface_or_ip : String) where
  -- The inner loop.
  unfoldable pub has_address : Bytes → List (Option Bytes) → Bool
  has_address target [] = false
  has_address target (none ∷ rest) = has_address target rest
  has_address target (some ip ∷ rest) = net.equal_ip ip target || has_address target rest

  abbrev is_at : Option Bytes → List (Option Bytes) → Bool
  is_at none addresses = false
  is_at (some target) addresses = has_address target addresses

  unfoldable pub find_interface : List NetInterface → Result InterfaceError String
  unfolding has_address
  find_interface [] = err (no_interface_for iface_or_ip)
  find_interface (i ∷ rest) =
      let later = find_interface rest in
      if str_eq i.name iface_or_ip
      then ok i.name
      else if is_at (net.parse_ip iface_or_ip) i.addresses
      then ok i.name
      else later

  unfoldable pub determine_interface : Result InterfaceError String
  unfolding find_interface
  determine_interface = elim net.interfaces [
    | err text ↦ err (no_interfaces text)
    | ok list ↦ find_interface list
  ]

  -- The interface is the one that is named, or has the address.
  abbrev pub is_meant : NetInterface → Bool
  is_meant i = str_eq i.name iface_or_ip || is_at (net.parse_ip iface_or_ip) i.addresses

  -- The first interface that is meant is found, and none is found only if none is meant.
  pub find_interface-is_meant :
      (list : List NetInterface)
      → ((i : NetInterface) × (find_interface list ≡ ok i.name) × (is_meant i ≡ true))
        ⊎ ((find_interface list ≡ err (no_interface_for iface_or_ip)) × (any is_meant list ≡ false))
  unfolding find_interface
  find_interface-is_meant [] = inr (refl, refl)
  find_interface-is_meant (i ∷ rest) = elim (Bool-cases (is_meant i)) [
    | inl meant ↦ inl (i, ground (arith, meant), meant)
    | inr other ↦ elim (find_interface-is_meant rest) [
      | inl (j, found, meant) ↦ inl (j, ground (arith, other, found), meant)
      | inr (nowhere, none_meant) ↦
          inr (ground (arith, other, nowhere), ground (arith, other, none_meant))
    ]
  ]
