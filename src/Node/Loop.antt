-- ===== src/Node/Loop.antt =====
-- The main loop of project/main/main.c, one turn at a time, and the pseudo-random numbers of
-- functional_module/lora/utilities.c.
pub mod DutyCycle
pub mod Quiet
pub mod Period
use sufficient_io_t_applicat.Base.{
  ◌≡◌, refl, ◌⊎◌, inl, inr, zero, suc, suc, ℕ, ◌+◌, ◌-◌, ◌*◌, ◌%◌, ◌^◌, none, some, done, fault,
}
use sufficient_io_t_applicat.Node.{Env, Config, App, DeviceState}
use sufficient_io_t_applicat.Node.Uplink.{send}
use sufficient_io_t_applicat.Node.Session.{init, join, cycle}
use sufficient_io_t_applicat.Node.Payload.{prepare_tx_frame}

-- `rand1`: the new `next`, a uint32_t, and the number.
unfoldable pub rand1 : ℕ → ℕ × ℕ
rand1 seed = let next : ℕ = (seed * 1103515245 + 12345) % 2 ^ 32 in (next, next % 2147483647)

-- `randr( -bound, bound )` as what it is above `-bound`: the result lies in `0 … 2 * bound`.
unfoldable pub randr_above : ℕ → ℕ → ℕ × ℕ
unfolding rand1
randr_above bound seed = let (next, r) = rand1 seed in (next, r % (2 * bound + 1))

-- APP_TX_DUTYCYCLE_RND
abbrev pub duty_cycle_rnd : ℕ
duty_cycle_rnd = 1000

-- `appTxDutyCycle + randr( -1000, 1000 )`, a uint32_t.
unfoldable pub next_duty_cycle : ℕ → ℕ → ℕ × ℕ
unfolding randr_above
next_duty_cycle app_tx_duty_cycle seed =
    let (next, above) = randr_above duty_cycle_rnd seed in
    (next, (app_tx_duty_cycle + above + 2 ^ 32 - duty_cycle_rnd) % 2 ^ 32)

-- How a turn of the loop ends.
pub data Turn : Type 0 where
  runs : App → Turn
  exits : Turn
  faults : Turn

pub Turn-cases : (r : Turn) → ((t : App) × (r ≡ runs t)) ⊎ ((r ≡ exits) ⊎ (r ≡ faults))
Turn-cases (runs t) = inl (t, refl)
Turn-cases exits = inr (inl refl)
Turn-cases faults = inr (inr refl)

module _ (env : Env) (config : Config) where
  -- The case DEVICE_STATE_SEND.
  unfoldable pub send_turn : App → Turn
  send_turn s = elim (prepare_tx_frame env config s.app_port config.data_selection s) [
    | fault ↦ faults
    | done prepared ↦
        let sent = send env config prepared in
        runs (record sent { device_state = DeviceState.cycle })
  ]

  -- The case DEVICE_STATE_CYCLE.
  unfoldable pub cycle_turn : App → App
  unfolding cycle
  cycle_turn s =
      let (next, time) = next_duty_cycle config.app_tx_duty_cycle s.seed in
      let armed = cycle time (record s { tx_duty_cycle_time = time; seed = next }) in
      record armed { device_state = DeviceState.sleep }

  -- One turn of `while(1)` in `loop`. `loraSleep` has no statements.
  unfoldable pub turn : App → Turn
  unfolding send_turn cycle_turn
  turn s = elim s.device_state [
    | DeviceState.init ↦ elim (init env config config.lorawan_region s) [
      | none ↦ exits
      | some ready ↦ runs ready
    ]
    | DeviceState.join ↦ runs (join env config s)
    | DeviceState.send ↦ send_turn s
    | DeviceState.cycle ↦ runs (cycle_turn s)
    | DeviceState.sleep ↦ runs s
  ]

  -- So many turns, with no event between them.
  unfoldable pub turns : ℕ → App → Turn
  turns zero s = runs s
  turns (suc n) s = elim (turn s) [ runs next ↦ turns n next | exits ↦ exits | faults ↦ faults ]
