-- ===== src/Rtu/Client/Connect/Failure.antt =====
-- A connect of src/modbus_rtu_client.c that fails leaves the registry as it was.
use modbus_protocol.Prelude.{
  ℤ, pos, negsuc, ◌≡◌, ◌≢◌, refl, ◌⊎◌, inl, inr, false, not, Option, none, some, [], ◌∷◌, if_cases,
  option_cases, Text,
}
use modbus_protocol.Rtu.Bus.{Bus, Registry, Opening, PortConfig}
use modbus_protocol.Rtu.Bus.Lookup.{Apart}
use modbus_protocol.Rtu.Client.{RtuClientConfig, RtuClientCtx}
use modbus_protocol.Rtu.Client.Connect.{
  Answers, port_config, attached_ctx, connect_device, rtu_client_connect,
}
use modbus_protocol.Rtu.Client.Connect.Attaches.{
  Attaches, not_attached, shared, opened, shared_bus_attach-Attaches,
}

module _ (ctx : RtuClientCtx) (reg : Registry) where
  -- If the call failed, the registry is as it was, and so is the context, or it is unconnected.
  abbrev LeavesAlone : ℤ × RtuClientCtx × Registry → Type 0
  LeavesAlone r =
      r.0 ≢ pos 0
      → (r.2 ≡ reg) × ((r.1 ≡ ctx) ⊎ ((r.1.initialized ≡ false) × (r.1.shared_bus ≡ none)))

  refused : LeavesAlone (negsuc 0, ctx, reg)
  refused bad = (refl, inl refl)

  attached-LeavesAlone :
      (o : Opening) (cfg : RtuClientConfig) (port : PortConfig) (r : Option Bus × Registry)
      → Attaches o port reg r
      → LeavesAlone (attached_ctx cfg r)
  attached-LeavesAlone o cfg port _ not_attached bad = (refl, inr (refl, refl))
  attached-LeavesAlone o cfg port _ (shared bus found matches) bad = absurd (bad refl)
  attached-LeavesAlone o cfg port _ (opened address fd key given is_open new_path) bad =
      absurd (bad refl)

  device-LeavesAlone :
      (a : Answers) (cfg : RtuClientConfig) (device : Text)
      → Apart reg.buses
      → LeavesAlone (connect_device a ctx cfg device reg)
  unfolding connect_device
  device-LeavesAlone a cfg device apart =
      if_cases LeavesAlone ctx.initialized (λ _. refused)
        λ off.
          if_cases LeavesAlone (not a.lock_made) (λ _ bad. (refl, inr (refl, refl)))
            λ _.
              attached-LeavesAlone a.opening cfg (port_config device cfg) _
                (shared_bus_attach-Attaches a.resolved a.opening (port_config device cfg) reg apart)

  named-LeavesAlone :
      (a : Answers) (cfg : RtuClientConfig) (device : Text)
      → Apart reg.buses
      → LeavesAlone (elim device [
        | [] ↦ (negsuc 0, ctx, reg)
        | c ∷ rest ↦ connect_device a ctx cfg (c ∷ rest) reg
      ])
  named-LeavesAlone a cfg [] apart = refused
  named-LeavesAlone a cfg (c ∷ rest) apart = device-LeavesAlone a cfg (c ∷ rest) apart

-- Where each path has one bus at its own address, a connect that does not return 0 leaves the
-- registry, with its open ports, as it was, and the context as it was or unconnected.
pub rtu_client_connect_failed :
    (a : Answers) (ctx : RtuClientCtx) (cfg : Option RtuClientConfig) (reg : Registry)
    → Apart reg.buses
    → let r = rtu_client_connect a ctx cfg reg in
      r.0 ≢ pos 0
      → (r.2 ≡ reg) × ((r.1 ≡ ctx) ⊎ ((r.1.initialized ≡ false) × (r.1.shared_bus ≡ none)))
unfolding rtu_client_connect
rtu_client_connect_failed a ctx none reg apart = refused ctx reg
rtu_client_connect_failed a ctx (some cfg) reg apart =
    option_cases (LeavesAlone ctx reg) cfg.device (λ _. refused ctx reg)
      (λ device _. named-LeavesAlone ctx reg a cfg device apart)
