-- ===== src/Sfu/Plugin/Settings.antt =====
-- rtmcsfu/rtmcsfu.go: what New asks of pion's SettingEngine, in order, for a configuration. The calls
-- that pion may refuse, the candidate types that it knows, and `strings.ToLower` are fields of `Pion`.
use kwmbridge.Base.{
  ℕ, ◌≡◌, Bool, true, false, not, ◌&&◌, Option, none, some, ◌⊎◌, inl, inr, List, [], ◌∷◌, ◌++◌,
  arith, if◌then◌else◌, ◌==◌, Text, codes, text_eq, is_some, Option-cases,
}
use kwmbridge.Sfu.Types.{experiment_ice_trickle}

abbrev pub experiment_use_replay_protection : Bool
experiment_use_replay_protection = false

pub data NetworkType : Type 0 where
  udp4 udp6 tcp4 tcp6 : NetworkType

-- The part of the configuration that New reads.
pub record IceConfig : Type 0 where
  pub ice_lite : Bool
  pub ice_interfaces : List Text
  pub ice_network_types : List Text
  pub port_min : ℕ  -- of ICEEphemeralUDPPortRange
  pub port_max : ℕ
  pub nat_ips : List Text
  pub nat_candidate_type : Text

pub record Pion : Type 0 where
  pub to_lower : Text → Text
  pub set_port_range : ℕ → ℕ → Bool
  pub candidate_type_of : Text → Option ℕ

-- The calls; an interface filter passes the names of its list.
pub data Setting : Type 0 where
  trickle lite : Bool → Setting
  dtls_window srtp_window srtcp_window : ℕ → Setting
  srtp_unprotected srtcp_unprotected : Bool → Setting
  interface_filter : List Text → Setting
  network_types : List NetworkType → Setting
  port_range : ℕ → ℕ → Setting
  nat_1to1 : List Text → ℕ → Setting

pub data SettingsError : Type 0 where
  bad_port_range bad_candidate_type : SettingsError

abbrev no_items : {A : Type 0} → List A → Bool
no_items [] = true
no_items (_ ∷ _) = false

-- The network type of a name in lower case.
unfoldable pub network_type_of : Text → Option NetworkType
network_type_of name =
    if text_eq name (codes "udp4")
    then some udp4
    else if text_eq name (codes "udp6")
    then some udp6
    else if text_eq name (codes "tcp4")
    then some tcp4
    else if text_eq name (codes "tcp6")
    then some tcp6
    else none

abbrev and_more : Option NetworkType → List NetworkType → List NetworkType
and_more none l = l
and_more (some t) l = t ∷ l

-- The loop over the configured names: those that are not supported are skipped.
unfoldable pub supported_types : (Text → Text) → List Text → List NetworkType
unfolding network_type_of
supported_types to_lower [] = []
supported_types to_lower (name ∷ names) =
    and_more (network_type_of (to_lower name)) (supported_types to_lower names)

abbrev replay_settings : List Setting
replay_settings =
    if experiment_use_replay_protection
    then dtls_window 128 ∷ srtp_window 64 ∷ srtcp_window 32 ∷ []
    else srtp_unprotected true ∷ srtcp_unprotected true ∷ []

module _ (p : Pion) (c : IceConfig) where
  abbrev filter_settings : List Setting
  filter_settings =
      (if no_items c.ice_interfaces then [] else interface_filter c.ice_interfaces ∷ [])
      ++ (if no_items c.ice_network_types
          then []
          else network_types (supported_types p.to_lower c.ice_network_types) ∷ [])

  unfoldable pub port_settings : SettingsError ⊎ List Setting
  port_settings =
      if c.port_max == 0
      then inr []
      else if p.set_port_range c.port_min c.port_max
      then inr (port_range c.port_min c.port_max ∷ [])
      else inl bad_port_range

  unfoldable pub nat_settings : SettingsError ⊎ List Setting
  nat_settings =
      if no_items c.nat_ips then inr [] else elim (p.candidate_type_of c.nat_candidate_type) [
        | none ↦ inl bad_candidate_type
        | some t ↦ inr (nat_1to1 c.nat_ips t ∷ [])
      ]

  unfoldable pub new_settings : SettingsError ⊎ List Setting
  unfolding port_settings nat_settings supported_types
  new_settings = elim port_settings [
    | inl e ↦ inl e
    | inr ports ↦ elim nat_settings [
      | inl e ↦ inl e
      | inr nat ↦ inr (
          (trickle experiment_ice_trickle ∷ lite c.ice_lite ∷ [])
          ++ (replay_settings ++ (filter_settings ++ (ports ++ nat))))
    ]
  ]

  -- New fails where there is a port range that pion refuses, and otherwise where there are NAT
  -- addresses and pion does not know their candidate type.
  pub new_settings_fails :
      let bad_range = not (c.port_max == 0) && not (p.set_port_range c.port_min c.port_max) in
      let bad_nat =
        not (no_items c.nat_ips) && not (is_some (p.candidate_type_of c.nat_candidate_type)) in
      (bad_range ≡ true → new_settings ≡ inl bad_port_range)
      × (bad_range ≡ false → bad_nat ≡ true → new_settings ≡ inl bad_candidate_type)
  unfolding new_settings port_settings nat_settings
  new_settings_fails = (
    λ h. ground arith,
    λ h k. elim (Option-cases (p.candidate_type_of c.nat_candidate_type)) [
      | inl n ↦ ground arith
      | inr (t, e) ↦ ground arith
    ],
  )
