-- ===== src/Node/Tests.antt =====
-- The application with concrete answers of what lies outside.
use sufficient_io_t_applicat.Base.{
  ℕ, ◌+◌, ◌≤◌, ◌<◌, ◌≡◌, refl, true, false, Option, none, some, [], ◌∷◌, arith,
}
use sufficient_io_t_applicat.Node.{App, DeviceState, JoinReq, Mib, McpsReq, Call, History}
use sufficient_io_t_applicat.Node.Uplink.{send}
use sufficient_io_t_applicat.Node.Uplink.Requests.{uplinks, payload, wants_ack, send_uplink}
use sufficient_io_t_applicat.Node.Events.{on_tx_next_packet_timer_event}
use sufficient_io_t_applicat.Node.Runs.{
  is_init, IsSound, Reaches-IsSound, and_then, at_start, turned, called_back, timer_ended,
}
use sufficient_io_t_applicat.Node.Session.{start_mac, init, join}
use sufficient_io_t_applicat.Node.Payload.{prepare_tx_frame}
use sufficient_io_t_applicat.Node.Loop.{
  Turn, runs, turn, turns, next_duty_cycle, randr_above, duty_cycle_rnd,
}
use sufficient_io_t_applicat.Node.Loop.DutyCycle.{next_duty_cycle_bounds}
use sufficient_io_t_applicat.Node.Loop.Quiet.{IsQuiet, turns-IsQuiet}
use sufficient_io_t_applicat.Node.Loop.Period.{send_round}
use sufficient_io_t_applicat.Node.Samples.{app, env, config, sending, waiting, prepared, prepares}

abbrev state_after : Turn → Option DeviceState
state_after (runs s) = some s.device_state
state_after _ = none

-- The first turns: initialisation, and a join request that is accepted.
start_to_sleep :
    state_after (turns env config 2 (app DeviceState.init true)) ≡ some DeviceState.sleep
unfolding turns turn init join
start_to_sleep = refl

abbrev masks_set : History → History
masks_set before =
    Call.mib_set (Mib.channels_mask config.user_channels_mask)
    ∷ Call.mib_set (Mib.channels_default_mask config.user_channels_mask)
    ∷ before

send_uplink_example :
    (req : McpsReq) × (before : History) × (((send env config sending).calls
        ≡ Call.mcps_request req ∷ Call.query_tx_possible 4 ∷ masks_set before)
      × (payload req ≡ some (3, sending.app_data, 4))
      × (wants_ack req ≡ true)
      × ((send env config sending).next_tx ≡ false)
      × (uplinks before ≡ 0))
send_uplink_example = send_uplink env config sending refl

abbrev the_join : JoinReq
the_join = record { dev_eui = 1 ∷ []; app_eui = 2 ∷ []; app_key = 3 ∷ []; trials = 1 }

abbrev waited : History
waited =
    Call.timer_stop
    ∷ Call.timer_start
    ∷ Call.timer_set_value 30000
    ∷ Call.mlme_request the_join
    ∷ []

next_duty_cycle_bounds_example :
    (8000 ≤ (next_duty_cycle 8000 1).1 + 1000) × ((next_duty_cycle 8000 1).1 ≤ 8000 + 1000)
next_duty_cycle_bounds_example = next_duty_cycle_bounds 8000 1 (omega arith) (omega arith)

below : 0 + (randr_above duty_cycle_rnd 5).1 < 1000
unfolding randr_above
below = omega arith

-- A round of `waiting`: the frame is prepared and not sent, and the timer is started.
abbrev rested : App
rested = record prepared {
  device_state = DeviceState.sleep;
  next_tx = false;
  tx_duty_cycle_time = 7102;
  seed = 1103527590;
  calls = Call.timer_start ∷ Call.timer_set_value 7102 ∷ [];
}

rests : turns env config 3 waiting ≡ runs rested
unfolding turns turn prepare_tx_frame send next_duty_cycle
rests = refl

turns-IsQuiet_example : IsQuiet waiting rested
turns-IsQuiet_example = turns-IsQuiet env config 3 waiting refl rests

send_round_example :
    (t : App) × (time : ℕ) × (turns env config 2 sending ≡ runs t)
    × (t.device_state ≡ DeviceState.sleep)
    × (t.next_tx ≡ (send env config prepared).next_tx)
    × (t.calls ≡ Call.timer_start ∷ Call.timer_set_value time ∷ (send env config prepared).calls)
    × (8000 ≤ time + 1000)
    × (time ≤ 8000 + 1000)
send_round_example = send_round env config sending refl prepares (omega arith) (omega arith)

abbrev powered : App
powered = app DeviceState.init true

abbrev begun : App
begun = start_mac env config 2 powered

first_turn : turn env config powered ≡ runs begun
unfolding turn init
first_turn = refl

begun_left : is_init begun.device_state ≡ false
unfolding start_mac
begun_left = refl

-- The timer ends after the first turn.
Reaches-IsSound_example : IsSound (on_tx_next_packet_timer_event env config begun)
Reaches-IsSound_example =
    Reaches-IsSound env config refl refl (
      and_then (and_then at_start (turned first_turn)) (called_back begun_left (timer_ended begun)))
