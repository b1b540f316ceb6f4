-- ===== src/Node/Loop/Quiet.antt =====
-- Turns of the loop while a confirmation is awaited.
use sufficient_io_t_applicat.Base.{
  ℕ, zero, suc, ◌≡◌, inl, inr, false, some, arith, Access, Access-cases,
}
use sufficient_io_t_applicat.Node.{Env, Config, App}
use sufficient_io_t_applicat.Node.Uplink.Requests.{uplinks, send_waits}
use sufficient_io_t_applicat.Node.Session.{init, join}
use sufficient_io_t_applicat.Node.Payload.{prepare_tx_frame}
use sufficient_io_t_applicat.Node.Payload.Keeps.{prepare_tx_frame-Keeps}
use sufficient_io_t_applicat.Node.Loop.{Turn-cases, runs, turn, turns, send_turn, cycle_turn}

-- Still waiting, and as many uplinks asked for.
pub record IsQuiet (s t : App) : Type 0 where
  pub waits : t.next_tx ≡ false
  pub sent : uplinks t.calls ≡ uplinks s.calls

module _ (env : Env) (config : Config) where
  init-IsQuiet :
      (region : ℕ) (s : App) {t : App}
      → s.next_tx ≡ false
      → init env config region s ≡ some t
      → IsQuiet s t
  unfolding init
  init-IsQuiet region s waiting e = ground arith

  join-IsQuiet : (s : App) → s.next_tx ≡ false → IsQuiet s (join env config s)
  unfolding join
  join-IsQuiet s waiting = ground arith

  send_turn-IsQuiet :
      (s : App) {t : App} → s.next_tx ≡ false → send_turn env config s ≡ runs t → IsQuiet s t
  unfolding send_turn
  send_turn-IsQuiet s {t} waiting e = elim (Access-cases prepared) [
    | inl bad ↦ ground arith
    | inr (p, good) ↦
        let kept = prepare_tx_frame-Keeps env config s.app_port config.data_selection s good in
        let waiting' : p.next_tx ≡ false = ground (arith, kept) in
        ground (arith, kept, send_waits env config p waiting')
  ]
    where
      prepared : Access App
      prepared = prepare_tx_frame env config s.app_port config.data_selection s

  cycle_turn-IsQuiet : (s : App) → s.next_tx ≡ false → IsQuiet s (cycle_turn env config s)
  unfolding cycle_turn
  cycle_turn-IsQuiet s waiting = ground arith

  turn-IsQuiet : (s : App) {t : App} → s.next_tx ≡ false → turn env config s ≡ runs t → IsQuiet s t
  unfolding turn
  turn-IsQuiet s {t} waiting e = ground (
    arith,
    init-IsQuiet config.lorawan_region s {t = t} waiting,
    join-IsQuiet s waiting,
    send_turn-IsQuiet s {t = t} waiting,
    cycle_turn-IsQuiet s waiting,
  )

  -- While the application waits for a confirmation, the loop asks for no uplink and goes on
  -- waiting, however many turns it makes and from whichever state.
  pub turns-IsQuiet :
      (n : ℕ) (s : App) {t : App} → s.next_tx ≡ false → turns env config n s ≡ runs t → IsQuiet s t
  unfolding turns
  turns-IsQuiet zero s waiting e = ground arith
  turns-IsQuiet (suc n) s {t} waiting e = elim (Turn-cases (turn env config s)) [
    | inl (u, first) ↦
        let one = turn-IsQuiet s waiting first in
        let more = turns-IsQuiet n u {t = t} one.waits (ground arith) in ground (arith, one, more)
    | inr stopped ↦ ground arith
  ]
