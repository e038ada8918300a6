-- ===== src/Config/Reload.antt =====
-- Stores that reloads lead to: whatever failed, the active configuration is one that was accepted.
use commeatus.Prelude.{◌≡◌, refl, true, Bytes, inl, inr}
use commeatus.Flow.{FlowContext}
use commeatus.Plan.{proxy, ExecutionAction}
use commeatus.Policy.{plan}
use commeatus.Outbound.{contains}
use commeatus.Outcome.{ok, err, >>=-eq-ok, Outcome-cases}
use commeatus.Config.{Surroundings, CompiledConfig, ConfigError}
use commeatus.Config.Compile.{parse_config_at, ConfigStore, new_at, reload, swap, snapshot}
use commeatus.Config.Planned.{parse_config_at-contains}

-- A text that is refused leaves the store as it is.
pub reload-err :
    {Session Association FilePath : Type 0} (host : Surroundings Session Association FilePath)
    (text : Bytes) (store : ConfigStore Session Association FilePath) (error : ConfigError)
    → parse_config_at host store.asset_root text ≡ err error
    → reload host store text ≡ (err error, store)
unfolding reload swap
reload-err host text store error refused = rw (refused, swap) refl

module _ {Session Association FilePath : Type 0} (root : FilePath) where
  -- A store that was made at `root`, after any reloads. The files and what the other calls give may
  -- be others each time.
  pub data IsReached : ConfigStore Session Association FilePath → Type 0 where
    created :
        {store : ConfigStore Session Association FilePath}
        (host : Surroundings Session Association FilePath) (text : Bytes)
        → new_at host text root ≡ ok store
        → IsReached store
    reloaded :
        {store : ConfigStore Session Association FilePath}
        (host : Surroundings Session Association FilePath) (text : Bytes)
        → IsReached store
        → IsReached (reload host store text).1

  -- A text that was accepted as the configuration.
  abbrev IsAccepted : CompiledConfig Session Association FilePath → Type 0
  IsAccepted c =
      (host : Surroundings Session Association FilePath) × (text : Bytes) × (parse_config_at host
          root text
        ≡ ok c)

  abbrev IsGood : ConfigStore Session Association FilePath → Type 0
  IsGood store = (store.asset_root ≡ root) × IsAccepted store.active

  new_at-IsGood :
      (host : Surroundings Session Association FilePath) (text : Bytes)
      (store : ConfigStore Session Association FilePath)
      → new_at host text root ≡ ok store
      → IsGood store
  unfolding new_at
  new_at-IsGood host text store e =
      let (active, parsed, e) = >>=-eq-ok (parse_config_at host root text) _ e in
      let same : active ≡ store.active = cc in (cc, (host, text, rw (← same) parsed))

  reload-IsGood :
      (host : Surroundings Session Association FilePath) (text : Bytes)
      (store : ConfigStore Session Association FilePath)
      → IsGood store
      → IsGood (reload host store text).1
  unfolding reload swap
  reload-IsGood host text store (at_root, good) =
      elim (Outcome-cases (parse_config_at host store.asset_root text)) [
        | inl (error, refused) ↦ rw (refused, swap) (at_root, good)
        | inr (candidate, accepted) ↦
            rw (accepted, swap) (at_root, (host, text, rw at_root at accepted))
      ]

  pub IsReached-IsGood :
      {store : ConfigStore Session Association FilePath} → IsReached store → IsGood store
  IsReached-IsGood {store = store} (created host text e) = new_at-IsGood host text store e
  IsReached-IsGood (reloaded {store = store} host text before) =
      reload-IsGood host text store (IsReached-IsGood before)

  -- After any reloads, those that fail included, a flow that the active configuration routes to a
  -- proxy has its endpoint in the registry of that same configuration.
  pub snapshot-contains :
      (store : ConfigStore Session Association FilePath) (flow : FlowContext) (id : Bytes)
      → IsReached store
      → (plan (snapshot store).runtime flow).action ≡ ExecutionAction.route (proxy id)
      → contains (snapshot store).outbounds id ≡ true
  snapshot-contains store flow id reached routed =
      let (_, (host, text, accepted)) = IsReached-IsGood reached in
      parse_config_at-contains host root text store.active flow id accepted routed
