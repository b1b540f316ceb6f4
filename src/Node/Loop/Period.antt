-- ===== src/Node/Loop/Period.antt =====
-- The round of a joined node: a frame, the timer, sleep, and the timer's event.
use sufficient_io_t_applicat.Base.{ℕ, ◌+◌, ◌^◌, ◌≤◌, ◌<◌, ◌≡◌, refl, true, some, ◌∷◌, arith, done}
use sufficient_io_t_applicat.Node.{Env, Config, App, DeviceState, Call}
use sufficient_io_t_applicat.Node.Uplink.{send}
use sufficient_io_t_applicat.Node.Events.{on_tx_next_packet_timer_event}
use sufficient_io_t_applicat.Node.Payload.{prepare_tx_frame}
use sufficient_io_t_applicat.Node.Loop.{runs, turn, turns, cycle_turn, next_duty_cycle}
use sufficient_io_t_applicat.Node.Loop.DutyCycle.{next_duty_cycle_bounds}

module _ (env : Env) (config : Config) (s : App) where
  -- From DEVICE_STATE_SEND, once the frame is prepared, two turns lead to DEVICE_STATE_SLEEP with
  -- the frame handed to `send` and then the timer started. If the configured time allows it, the
  -- timer is set within 1000 ms of it.
  pub send_round :
      {prepared : App}
      → s.device_state ≡ DeviceState.send
      → prepare_tx_frame env config s.app_port config.data_selection s ≡ done prepared
      → 1000 ≤ config.app_tx_duty_cycle
      → config.app_tx_duty_cycle + 1000 < 2 ^ 32
      → (t : App) × (time : ℕ) × (turns env config 2 s ≡ runs t)
        × (t.device_state ≡ DeviceState.sleep)
        × (t.next_tx ≡ (send env config prepared).next_tx)
        × (t.calls
            ≡ Call.timer_start ∷ Call.timer_set_value time ∷ (send env config prepared).calls)
        × (config.app_tx_duty_cycle ≤ time + 1000)
        × (time ≤ config.app_tx_duty_cycle + 1000)
  unfolding turns turn cycle_turn
  send_round {prepared} sending ready low high =
      let sent : App = record (send env config prepared) { device_state = DeviceState.cycle } in
      let time = (next_duty_cycle config.app_tx_duty_cycle sent.seed).1 in
      let bounds = next_duty_cycle_bounds config.app_tx_duty_cycle sent.seed low high in
      (
        cycle_turn env config sent,
        time,
        ground (arith, sending, ready),
        refl,
        refl,
        refl,
        bounds.0,
        bounds.1,
      )

  -- The timer's event takes a joined node from any state back to DEVICE_STATE_SEND, ready for a new
  -- frame, with the timer stopped.
  pub timer_event_joined :
      env.joined (Call.timer_stop ∷ s.calls) ≡ some true
      → let t = on_tx_next_packet_timer_event env config s in
        (t.device_state ≡ DeviceState.send)
        × (t.next_tx ≡ true)
        × (t.calls ≡ Call.mib_get_joined ∷ Call.timer_stop ∷ s.calls)
  unfolding on_tx_next_packet_timer_event
  timer_event_joined joined = ground arith
