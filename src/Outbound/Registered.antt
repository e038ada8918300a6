-- ===== src/Outbound/Registered.antt =====
-- What a registry holds, and what a proxy's sessions come from.
use commeatus.Prelude.{
  ◌≡◌, refl, ap, sym, ◌∙◌, true, some, List, [], ◌∷◌, Bytes, eqb_iff, Any, Option-cases, Bool-cases,
  inl, inr,
}
use commeatus.Plan.{proxy}
use commeatus.Io.{Result, ok}
use commeatus.Target.{Target}
use commeatus.Outbound.{
  ProxyEndpointConfig, OutboundRegistry, is_tls, has_id, get, capabilities, supports_udp,
  open_datagram,
}

module _ {Session Association : Type 0} where
  -- An endpoint of the given ones, whose transport is encrypted if its protocol asks for it.
  pub record IsRegistered (endpoints : List (ProxyEndpointConfig Session Association))
      (config : ProxyEndpointConfig Session Association) : Type 0 where
    pub given : Any (λ e. e ≡ config) endpoints
    pub protected :
        config.protocol.capabilities.requires_tls ≡ true → is_tls config.transport ≡ true

  find-has_id :
      (registry : List (ProxyEndpointConfig Session Association)) (id : Bytes)
      (config : ProxyEndpointConfig Session Association)
      → get registry id ≡ some config
      → Any (λ e. e ≡ config) registry × (config.id ≡ id)
  find-has_id [] id config e = cc
  find-has_id (c ∷ registry) id config e = elim (Bool-cases (has_id id c)) [
    | inl here ↦
        let same : c ≡ config = cc (rw here at e) in
        (inl same, ap ProxyEndpointConfig.id (sym same) ∙ (eqb_iff c.id id).0 here)
    | inr elsewhere ↦
        let (found, right) = find-has_id registry id config (rw elsewhere at e) in
        (inr found, right)
  ]

  -- A datagram path that opens at a proxy is the path of the registered endpoint with that id,
  -- never the direct one, and the capabilities of the endpoint say that it has one.
  pub open_datagram-supports_udp :
      (registry : OutboundRegistry Session Association) (id : Bytes) (opened : Result Association)
      (path : Association)
      → open_datagram registry (proxy id) opened ≡ ok path
      → (supports_udp (capabilities registry (proxy id)) ≡ true)
        × ((config : ProxyEndpointConfig Session Association) × Any (λ e. e ≡ config) registry
            × (config.id ≡ id)
            × (config.datagram ≡ some (ok path)))
  unfolding open_datagram capabilities
  open_datagram-supports_udp registry id opened path e = elim (Option-cases (get registry id)) [
    | inl missing ↦ absurd (cc (rw (missing, open_datagram) at e))
    | inr (config, found) ↦
        let (present, right) = find-has_id registry id config found in
        elim (Option-cases config.datagram) [
          | inl without ↦ absurd (cc (rw (found, without, open_datagram) at e))
          | inr (given, has) ↦
              let same : given ≡ ok path = rw (found, has, open_datagram) at e in
              (rw (found, has, capabilities) refl, (config, present, right, has ∙ ap some same))
        ]
  ]
