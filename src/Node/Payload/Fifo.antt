-- ===== src/Node/Payload/Fifo.antt =====
-- What is sent of the bytes that come through the fifo.
use sufficient_io_t_applicat.Base.{
  ℕ, ◌+◌, ◌≤◌, ◌<◌, ◌≡◌, refl, none, some, List, [], ◌∷◌, ◌++◌, arith, length, drop, replicate,
  length-append, All, done, IsHex, decimal, capital, lowercase,
}
use mathlib.Core.List.{append_assoc}
use sufficient_io_t_applicat.Hex.{str_to_array}
use sufficient_io_t_applicat.Hex.Spelling.{Spells, pair, end, length-Spells, str_to_array-Spells}
use sufficient_io_t_applicat.Node.{Env, Config, App, DataSelection, Call, call}
use sufficient_io_t_applicat.Node.Payload.{strlen, read_mkfifo, prepare_tx_frame}
use sufficient_io_t_applicat.Node.Payload.Contents.{Prepares, fill_frame-Prepares}

strlen-append :
    (str rest : List ℕ) → All (λ c. 0 < c) str → strlen (str ++ (0 ∷ rest)) ≡ done (length str)
unfolding strlen
strlen-append [] rest h = refl
strlen-append (c ∷ str) rest h = ground (arith, strlen-append str rest h.1)

IsHex-pos : {c d : ℕ} → IsHex c d → 0 < c
IsHex-pos (decimal e small) = omega arith
IsHex-pos (capital e large small) = omega arith
IsHex-pos (lowercase e large small) = omega arith

Spells-pos : {str bytes : List ℕ} → Spells str bytes → All (λ c. 0 < c) str
Spells-pos end = tt
Spells-pos (pair {c} {d} hc hd e s) = (IsHex-pos hc, (IsHex-pos hd, Spells-pos s))

module _ (env : Env) (config : Config) (port : ℕ) (s : App) where
  -- Hexadecimal digits that come through the fifo with their terminating zero, at most 126 of
  -- them, are sent as the bytes that they spell.
  pub mkfifo_frame_lem :
      {str bytes : List ℕ}
      → Spells str bytes
      → env.fifo_bytes s.calls ≡ some (str ++ (0 ∷ []))
      → length str ≤ 126
      → length bytes ≤ length s.app_data
      → Prepares
          (prepare_tx_frame env config port DataSelection.mkfifo_data s)
          s.app_data
          port
          bytes
  unfolding prepare_tx_frame
  mkfifo_frame_lem {str} {bytes} spelt arrived short fits =
      let text : List ℕ = str ++ (0 ∷ []) in
      let behind : List ℕ = drop (length text) (replicate 128 0) in
      let joined : text ++ behind ≡ str ++ (0 ∷ behind) = append_assoc str (0 ∷ []) behind in
      let measured = strlen-append str behind (Spells-pos spelt) in
      let converted = str_to_array-Spells s.app_data (0 ∷ behind) spelt fits (omega arith) in
      let buffer : read_mkfifo (some text) (replicate 128 0) ≡ (text ++ behind, length str + 1) =
        mkfifo_buffer in
      (
        record (call Call.fifo_read s) {
          app_port = port;
          app_data = bytes ++ drop (length bytes) s.app_data;
          app_data_size = length bytes;
        },
        ground (arith, buffer, joined, measured, converted, length-Spells spelt),
        record { on_port = refl; size = refl; contents = refl },
      )
    where
      mkfifo_buffer :
          read_mkfifo (some (str ++ (0 ∷ []))) (replicate 128 0)
          ≡ ((str ++ (0 ∷ [])) ++ drop (length (str ++ (0 ∷ []))) (replicate 128 0), length str + 1)
      mkfifo_buffer = unfold read_mkfifo in ground (arith, length-append str (0 ∷ []))

  -- A fifo that is empty gives the frame 0, 1, 2, 3 on port 2.
  pub mkfifo_frame_empty :
      env.fifo_bytes s.calls ≡ some []
      → 4 ≤ length s.app_data
      → Prepares
          (prepare_tx_frame env config port DataSelection.mkfifo_data s)
          s.app_data
          2
          (0 ∷ 1 ∷ 2 ∷ 3 ∷ [])
  unfolding prepare_tx_frame
  mkfifo_frame_empty arrived fits =
      let filled =
        fill_frame-Prepares (record (call Call.fifo_read s) { app_port = 2 }) (0 ∷ 1 ∷ 2 ∷ 3 ∷ [])
          fits in
      (filled.0, ground (arith, filled.1), filled.2)

  -- A failed read is not noticed: the frame has 127 bytes, all from what `appData` held before.
  pub mkfifo_frame_failed :
      env.fifo_bytes s.calls ≡ none
      → (t : App) × (prepare_tx_frame env config port DataSelection.mkfifo_data s ≡ done t)
        × (t.app_data ≡ s.app_data)
        × (t.app_data_size ≡ 127)
        × (t.app_port ≡ port)
  unfolding prepare_tx_frame read_mkfifo strlen str_to_array
  mkfifo_frame_failed e = (
    record (call Call.fifo_read s) { app_port = port; app_data_size = 127 },
    ground arith,
    refl,
    refl,
    refl,
  )
