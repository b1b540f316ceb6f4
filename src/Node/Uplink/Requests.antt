-- ===== src/Node/Uplink/Requests.antt =====
-- What the application asks of the MAC layer for an uplink, and when.
use sufficient_io_t_applicat.Base.{
  ℕ, suc, ◌≡◌, Bool, true, false, ◌&&◌, not, Option, none, some, List, [], ◌∷◌, arith,
  if◌then◌else◌,
}
use sufficient_io_t_applicat.Node.{Env, Config, App, Mib, McpsReq, Call, call, History}
use sufficient_io_t_applicat.Node.Uplink.{
  send_frame, frame_request, restore_class, send, lwan_dev_params_update,
}

-- The uplinks that a history asks for.
abbrev pub uplinks : History → ℕ
uplinks [] = 0
uplinks (Call.mcps_request req ∷ calls) = suc (uplinks calls)
uplinks (c ∷ calls) = uplinks calls

-- Port, data and size of a request that has a payload.
abbrev pub payload : McpsReq → Option (ℕ × List ℕ × ℕ)
payload (McpsReq.empty datarate) = none
payload (McpsReq.unconfirmed port buffer size datarate) = some (port, buffer, size)
payload (McpsReq.confirmed port buffer size trials datarate) = some (port, buffer, size)

abbrev pub wants_ack : McpsReq → Bool
wants_ack (McpsReq.confirmed port buffer size trials datarate) = true
wants_ack _ = false

module _ (env : Env) (config : Config) where
  restore_class-keeps :
      (s : App)
      → let r = restore_class env config s in
        (uplinks r.calls ≡ uplinks s.calls)
        × (r.next_tx ≡ s.next_tx)
        × (r.app_data ≡ s.app_data)
        × (r.app_data_size ≡ s.app_data_size)
        × (r.app_port ≡ s.app_port)
        × (r.device_state ≡ s.device_state)
  unfolding restore_class
  restore_class-keeps s = ground arith

  abbrev masked : App → App
  masked s = lwan_dev_params_update env config s

  -- The request that `SendFrame` makes in the state `s`.
  abbrev request : App → McpsReq
  request s =
      frame_request env config (env.tx_possible (masked s).calls s.app_data_size)
        (call (Call.query_tx_possible s.app_data_size) (masked s))

  request-payload :
      (s : App)
      → (payload (request s) ≡ (
          if env.tx_possible (masked s).calls s.app_data_size
          then some (s.app_port, s.app_data, s.app_data_size)
          else none))
        × (wants_ack (request s)
            ≡ (env.tx_possible (masked s).calls s.app_data_size && config.is_tx_confirmed))
  unfolding frame_request lwan_dev_params_update
  request-payload s = (ground arith, ground arith)

  send-eq :
      (s : App)
      → s.next_tx ≡ true
      → let r = restore_class env config s in
        let asked = call (Call.query_tx_possible r.app_data_size) (masked r) in
        send env config s ≡ record (call (Call.mcps_request (request r)) asked) {
          next_tx = not (env.mcps_accepted asked.calls (request r));
        }
  unfolding send_frame send
  send-eq s ready = rw ready

  -- The application waits for a confirmation: `send` asks for nothing and changes nothing.
  pub send_waits : (s : App) → s.next_tx ≡ false → send env config s ≡ s
  unfolding send
  send_waits s waiting = ground arith

  -- Otherwise `send` ends with one uplink request, right after the size was queried and the channel
  -- masks were set from the configuration. The request carries port, data and size of the
  -- application if the MAC layer finds the size possible, and no payload if not; it wants an
  -- acknowledgement only if it has a payload and the configuration says so. The application waits
  -- for a confirmation exactly if the request was accepted. No other uplink is asked for.
  pub send_uplink :
      (s : App)
      → s.next_tx ≡ true
      → (req : McpsReq) × (before : History) × (let set =
            Call.mib_set (Mib.channels_mask config.user_channels_mask)
            ∷ Call.mib_set (Mib.channels_default_mask config.user_channels_mask)
            ∷ before in
          let fits = env.tx_possible set s.app_data_size in
          let asked = Call.query_tx_possible s.app_data_size ∷ set in
          let sent = send env config s in
          (sent.calls ≡ Call.mcps_request req ∷ asked)
          × (payload req ≡ (if fits then some (s.app_port, s.app_data, s.app_data_size) else none))
          × (wants_ack req ≡ (fits && config.is_tx_confirmed))
          × (sent.next_tx ≡ not (env.mcps_accepted asked req))
          × (uplinks before ≡ uplinks s.calls))
  unfolding lwan_dev_params_update
  send_uplink s ready =
      let r = restore_class env config s in
      let kept = restore_class-keeps s in
      let sent = send-eq s ready in
      (
        request r,
        r.calls,
        (
          ground (arith, sent, kept),
          ground (arith, request-payload r, kept),
          ground (arith, request-payload r, kept),
          ground (arith, sent, kept),
          kept.0,
        ),
      )
