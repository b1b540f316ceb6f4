-- ===== src/Node/Session/Joining.antt =====
-- Starting the node and joining the network.
use sufficient_io_t_applicat.Base.{
  ℕ, ◌≤◌, ◌<◌, ◌≡◌, ◌≢◌, ◌↔◌, ◌⊎◌, true, false, ◌&&◌, not, none, some, List, [], ◌∷◌, arith, leb,
  ◌==◌, if◌then◌else◌,
}
use sufficient_io_t_applicat.Node.{Env, Config, App, DeviceState, JoinReq, Mib, Call, History}
use sufficient_io_t_applicat.Node.Session.{start_mac, init, join, known_regions, is_known}

-- The initialisations of the MAC layer in a history, and the regions that they name.
abbrev pub initialised : History → List ℕ
initialised [] = []
initialised (Call.mac_initialization region ∷ calls) = region ∷ initialised calls
initialised (c ∷ calls) = initialised calls

is_known-eq : (region : ℕ) → is_known region known_regions ≡ (leb region 12 && not (region == 10))
unfolding is_known
is_known-eq region = ground arith

module _ (env : Env) (config : Config) where
  -- `init` exits the program exactly for the regions that are no `case`: 10, which is the second
  -- sub-band of AU915, and all above 12.
  pub init_exits :
      (region : ℕ) (s : App) → (init env config region s ≡ none) ↔ ((region ≡ 10) ⊎ (12 < region))
  unfolding init
  init_exits region s = ground (arith, is_known-eq region)

  -- For any other region `init` goes on to DEVICE_STATE_JOIN, having initialised the MAC layer once,
  -- with both sub-bands of AS923 as that region.
  pub init_lem :
      (region : ℕ) (s : App)
      → region ≢ 10
      → region ≤ 12
      → (t : App) × (init env config region s ≡ some t)
        × (t.device_state ≡ DeviceState.join)
        × (t.next_tx ≡ s.next_tx)
        × (initialised t.calls ≡ (if leb 11 region then 0 else region) ∷ initialised s.calls)
  unfolding init
  init_lem region s known small = (
    start_mac env config region s,
    ground (arith, is_known-eq region),
    ground arith,
    ground arith,
    ground arith,
  )

  -- Activation over the air makes one join request with the configured identifiers. The node then
  -- sleeps if the request was accepted, and starts the timer at the next turn if not.
  pub join_over_the_air :
      (s : App)
      → config.over_the_air_activation ≡ true
      → let t = join env config s in
        let req : JoinReq = record {
          dev_eui = config.dev_eui;
          app_eui = config.app_eui;
          app_key = config.app_key;
          trials = 1;
        } in
        (t.calls ≡ Call.mlme_request req ∷ s.calls)
        × (t.device_state
            ≡ (if env.join_accepted s.calls req then DeviceState.sleep else DeviceState.cycle))
        × (t.next_tx ≡ s.next_tx)
  unfolding join
  join_over_the_air s over_the_air = ground arith

  -- Activation by personalisation makes no join request: the network, the address and both keys are
  -- set before the node counts as joined, and the next turn sends.
  pub join_personalised :
      (s : App)
      → config.over_the_air_activation ≡ false
      → let t = join env config s in
        (t.calls
          ≡ Call.mib_set (Mib.network_joined true)
            ∷ Call.mib_set (Mib.app_skey config.app_skey)
            ∷ Call.mib_set (Mib.nwk_skey config.nwk_skey)
            ∷ Call.mib_set (Mib.dev_addr config.dev_addr)
            ∷ Call.mib_set (Mib.net_id 0)
            ∷ s.calls)
        × (t.device_state ≡ DeviceState.send)
        × (t.next_tx ≡ s.next_tx)
  unfolding join
  join_personalised s personalised = ground arith
