-- ===== src/Config/Defaults.antt =====
-- ApplyDefaults of common/config.go, a second time.
use sbnet.Base.{
  ℕ, zero, suc, ◌≡◌, refl, Bool, true, false, List, [], ◌∷◌, String, ◌==◌, string_comparable,
  if◌then◌else◌, Bool-cases, inl, inr,
}
use sbnet.Base.Int.{ℤ, pos, negsuc}
use sbnet.Config.{
  or_text, or_int, or_list, DirectoryConfig, RelayConfig, BrokerConfig, BridgeServerConfig,
  ClientConfig, KindConfig, apply_directory_defaults, apply_relay_defaults, apply_broker_defaults,
  apply_bridge_defaults, apply_client_defaults, apply_kind_defaults,
}

or_text_twice : (g d : String) → or_text (or_text g d) d ≡ or_text g d
or_text_twice g d = elim (Bool-cases (g == "")) [
  | inl e ↦ rw e (if_same (d == "") d)
  | inr e ↦ rw (e, e) refl
]
  where
    if_same : (b : Bool) (x : String) → (if b then x else x) ≡ x
    if_same true x = refl
    if_same false x = refl

or_int_twice : (g d : ℤ) → or_int (or_int g d) d ≡ or_int g d
or_int_twice (pos zero) d = or_int_self d
  where
    or_int_self : (d : ℤ) → or_int d d ≡ d
    or_int_self (pos zero) = refl
    or_int_self (pos (suc n)) = refl
    or_int_self (negsuc n) = refl
or_int_twice (pos (suc n)) d = refl
or_int_twice (negsuc n) d = refl

or_list_twice :
    (g : List String) (d : String) → or_list (or_list g (d ∷ [])) (d ∷ []) ≡ or_list g (d ∷ [])
or_list_twice [] d = refl
or_list_twice (s ∷ g) d = refl

rate_twice :
    {F : Type 0} (is_zero : F → Bool) (g d : F)
    → is_zero d ≡ false
    → (if is_zero (if is_zero g then d else g) then d else if is_zero g then d else g)
      ≡ (if is_zero g then d else g)
rate_twice is_zero g d h = elim (Bool-cases (is_zero g)) [
  | inl e ↦ rw (e, h) refl
  | inr e ↦ rw (e, e) refl
]

-- ApplyDefaults leaves a configuration that it has completed as it is, for each of the six programs;
-- for the directory provided that neither default rate is zero. So the relay's health port is
-- derived from the port that the first call settled.
pub apply_defaults_twice :
    {F : Type 0} (is_zero : F → Bool) (of_nat : ℕ → F) (d : DirectoryConfig F) (r : RelayConfig)
    (b : BrokerConfig) (g : BridgeServerConfig) (c : ClientConfig) (k : KindConfig)
    → is_zero (of_nat 5) ≡ false
    → is_zero (of_nat 20) ≡ false
    → (apply_directory_defaults is_zero of_nat (apply_directory_defaults is_zero of_nat d)
        ≡ apply_directory_defaults is_zero of_nat d)
      × (apply_relay_defaults (apply_relay_defaults r) ≡ apply_relay_defaults r)
      × (apply_broker_defaults (apply_broker_defaults b) ≡ apply_broker_defaults b)
      × (apply_bridge_defaults (apply_bridge_defaults g) ≡ apply_bridge_defaults g)
      × (apply_client_defaults (apply_client_defaults c) ≡ apply_client_defaults c)
      × (apply_kind_defaults (apply_kind_defaults k) ≡ apply_kind_defaults k)
unfolding apply_directory_defaults apply_relay_defaults apply_broker_defaults apply_bridge_defaults
    apply_client_defaults apply_kind_defaults
apply_defaults_twice is_zero of_nat d r b g c k five twenty = (
  simp (or_text_twice, or_int_twice, rate_twice is_zero _ _ five, rate_twice is_zero _ _ twenty),
  simp (or_text_twice, or_int_twice),
  simp (or_text_twice, or_int_twice, or_list_twice),
  simp (or_text_twice),
  simp (or_text_twice, or_int_twice),
  simp (or_text_twice, or_int_twice, or_list_twice),
)
