-- ===== src/Radio/Waking/Parameters.antt =====
-- The operations of functional_module/lora/sx126x.c with frequencies, power, modulation and packets.
use sufficient_io_t_applicat.Base.{
  Bool-cases, inl, inr, ltb, true, ℕ, ◌*◌, ◌/◌, ◌^◌, ◌<◌, ◌≡◌, refl, inl, inr, true, [], ◌∷◌, ◌++◌,
  arith, ltb, ◌==◌, Bool-cases, Access, done, ℤ,
}
use sufficient_io_t_applicat.Spi.{System}
use sufficient_io_t_applicat.Gpio.{Sysfs}
use sufficient_io_t_applicat.Radio.Steps.{Takes, bind, by_test-Takes, get-Takes, pure-Takes}
use sufficient_io_t_applicat.Radio.{Step, gfsk, lora, no_packet, PacketType, ◌>>=◌, lift}
use sufficient_io_t_applicat.Radio.Commands.{bytes16, bytes24, bytes32, packet_code}
use sufficient_io_t_applicat.Radio.Packets.{
  image_bytes, frequency_steps, calibrate_image, set_rf_frequency, set_packet_type, set_pa_for,
  set_tx_params, power_byte, update_packet_type, Modulation, gfsk_modulation, lora_modulation,
  no_modulation, set_modulation_params, set_crc, PacketParams, gfsk_packet, lora_packet,
  other_packet, set_packet_params,
}
use sufficient_io_t_applicat.Radio.Waking.{
  IsPolite, IsAwake, from_IsAwake, to_polite, write_command-IsAwake, write_register-IsAwake,
}
use sufficient_io_t_applicat.Radio.Waking.Operations.{set_pa_config-IsAwake}
use sufficient_io_t_applicat.Radio.Waking.Sequences.{
  set_crc_seed-IsPolite, set_crc_polynomial-IsPolite,
}

pub lifted :
    {S A B : Type 0} {P : S → Type 0} {Q : B → S → Type 0} {m : Access A} (f : A → Step S B) (a : A)
    → m ≡ done a
    → Takes P (f a) Q
    → Takes P (lift m >>= f) Q
lifted f a given t = record {
  ends = λ r p. let (b, s, runs, q) = t.ends r p in (b, s, ground (arith, given, runs), q);
}

image_bytes_lem :
    (freq : ℕ)
    → 425000000 < freq
    → (first : ℕ) × (second : ℕ) × (image_bytes freq ≡ done (first ∷ second ∷ []))
unfolding image_bytes
image_bytes_lem freq high = elim (Bool-cases (ltb 900000000 freq)) [
  | inl e ↦ (0xE1, 0xE9, ground (arith, e))
  | inr e ↦ elim (Bool-cases (ltb 850000000 freq)) [
    | inl e' ↦ (0xD7, 0xD8, ground arith)
    | inr e' ↦ elim (Bool-cases (ltb 770000000 freq)) [
      | inl e'' ↦ (0xC1, 0xC5, ground arith)
      | inr e'' ↦ elim (Bool-cases (ltb 460000000 freq)) [
        | inl e3 ↦ (0x75, 0x81, ground arith)
        | inr e3 ↦ (0x6B, 0x6F, ground arith)
      ]
    ]
  ]
]

pub frequency_steps_lem :
    (frequency : ℕ)
    → frequency < 2 ^ 18 * 15625
    → frequency_steps frequency ≡ done (frequency * 2 ^ 14 / 15625)
unfolding frequency_steps
frequency_steps_lem frequency low = ground arith

module _ (system : System) (sysfs : Sysfs) (dev : ℕ) where
  pub calibrate_image-IsAwake :
      (freq : ℕ)
      → 425000000 < freq
      → Takes (IsPolite dev) (calibrate_image system sysfs freq) (λ _. IsAwake dev)
  unfolding calibrate_image
  calibrate_image-IsAwake freq high =
      let (first, second, bytes) = image_bytes_lem freq high in
      lifted _ (first ∷ second ∷ []) bytes
        (write_command-IsAwake system sysfs dev 0x98 (first ∷ second ∷ []) refl (omega arith))

  pub set_rf_frequency-IsAwake :
      (frequency : ℕ)
      → 425000000 < frequency
      → frequency < 2 ^ 18 * 15625
      → Takes (IsPolite dev) (set_rf_frequency system sysfs frequency) (λ _. IsAwake dev)
  unfolding set_rf_frequency
  set_rf_frequency-IsAwake frequency high low = bind get-Takes λ r.
      bind
        (by_test-Takes r.image_calibrated (pure-Takes tt) (
          bind (to_polite dev (calibrate_image-IsAwake frequency high)) λ _. (record {
            ends = λ r p. (
              tt,
              record r { image_calibrated = true },
              refl,
              record { opened = p.opened; past = p.past; known = p.known },
            );
          })))
        λ _. lifted _ (frequency * 2 ^ 14 / 15625) (frequency_steps_lem frequency low) (
          (write_command-IsAwake system sysfs dev 0x86 (bytes32 (frequency * 2 ^ 14 / 15625)) refl
            (omega arith)))

  pub set_packet_type-IsAwake :
      (kind : PacketType)
      → Takes (IsPolite dev) (set_packet_type system sysfs kind) (λ _. IsAwake dev)
  unfolding set_packet_type
  set_packet_type-IsAwake kind =
      bind
        (record {
          ends = λ r p. (
            tt,
            record r { packet_type = kind },
            refl,
            record { opened = p.opened; past = p.past; known = p.known },
          );
        })
        λ _.
          (write_command-IsAwake system sysfs dev 0x8A (packet_code kind ∷ []) refl (omega arith))

  set_pa_for-IsAwake :
      (opt : ℕ) → Takes (IsPolite dev) (set_pa_for system sysfs opt) (λ _. IsAwake dev)
  unfolding set_pa_for
  set_pa_for-IsAwake opt =
      by_test-Takes (opt == 3) ((set_pa_config-IsAwake system sysfs dev 0x02 0x02 0x00 0x01)) (
        by_test-Takes (opt == 2) ((set_pa_config-IsAwake system sysfs dev 0x02 0x03 0x00 0x01)) (
          by_test-Takes (opt == 1) ((set_pa_config-IsAwake system sysfs dev 0x03 0x05 0x00 0x01))
            ((set_pa_config-IsAwake system sysfs dev 0x04 0x07 0x00 0x01))))

  pub set_tx_params-IsAwake :
      (power : ℤ) (ramp_time : ℕ)
      → Takes (IsPolite dev) (set_tx_params system sysfs power ramp_time) (λ _. IsAwake dev)
  unfolding set_tx_params
  set_tx_params-IsAwake power ramp_time = bind get-Takes λ r.
      bind (set_pa_for-IsAwake r.pa_opt) λ _.
        bind (from_IsAwake dev (write_register-IsAwake system sysfs dev 0x08E7 0x38)) λ _.
          from_IsAwake dev (
            write_command-IsAwake system sysfs dev 0x8E (power_byte power ∷ ramp_time ∷ []) refl
              (omega arith))

  update_packet_type-IsPolite :
      (kind : PacketType)
      → Takes (IsPolite dev) (update_packet_type system sysfs kind) (λ _. IsPolite dev)
  unfolding update_packet_type
  update_packet_type-IsPolite kind = bind get-Takes λ r.
      by_test-Takes (packet_code r.packet_type == packet_code kind) (pure-Takes tt)
        (to_polite dev (set_packet_type-IsAwake kind))

  pub set_modulation_params-IsPolite :
      (params : Modulation)
      → Takes (IsPolite dev) (set_modulation_params system sysfs params) (λ _. IsPolite dev)
  unfolding set_modulation_params
  set_modulation_params-IsPolite (gfsk_modulation bit_rate shaping bandwidth deviation) =
      bind (update_packet_type-IsPolite gfsk) λ _. to_polite dev (
        write_command-IsAwake system sysfs dev 0x8B
          (bytes24 bit_rate ++ (shaping ∷ bandwidth ∷ bytes24 deviation)) refl (omega arith))
  set_modulation_params-IsPolite (lora_modulation spreading bandwidth coding low_datarate) =
      bind (update_packet_type-IsPolite lora) λ _. to_polite dev (
        write_command-IsAwake system sysfs dev 0x8B
          (spreading ∷ bandwidth ∷ coding ∷ low_datarate ∷ []) refl (omega arith))
  set_modulation_params-IsPolite no_modulation = update_packet_type-IsPolite no_packet

  set_crc-IsPolite :
      (crc_length : ℕ) → Takes (IsPolite dev) (set_crc system sysfs crc_length) (λ _. IsPolite dev)
  unfolding set_crc
  set_crc-IsPolite crc_length =
      by_test-Takes (crc_length == 0xF1)
        (bind (set_crc_seed-IsPolite system sysfs dev 0xFFFF)
          λ _. bind (set_crc_polynomial-IsPolite system sysfs dev 0x8005) λ _. pure-Takes 0x02)
        (by_test-Takes (crc_length == 0xF2)
          (bind (set_crc_seed-IsPolite system sysfs dev 0x1D0F)
            λ _. bind (set_crc_polynomial-IsPolite system sysfs dev 0x1021) λ _. pure-Takes 0x06)
          (pure-Takes crc_length))

  pub set_packet_params-IsPolite :
      (params : PacketParams)
      → Takes (IsPolite dev) (set_packet_params system sysfs params) (λ _. IsPolite dev)
  unfolding set_packet_params
  set_packet_params-IsPolite
        (gfsk_packet preamble detect sync_length addr_comp header payload_length crc_length
          dc_free) =
      bind (update_packet_type-IsPolite gfsk) λ _. bind (set_crc-IsPolite crc_length) λ crc.
        to_polite dev (
          write_command-IsAwake system sysfs dev 0x8C
            (bytes16 preamble
              ++ (detect ∷ sync_length ∷ addr_comp ∷ header ∷ payload_length ∷ crc ∷ dc_free ∷ []))
            refl (omega arith))
  set_packet_params-IsPolite (lora_packet preamble header payload_length crc_mode invert_iq) =
      bind (update_packet_type-IsPolite lora) λ _. to_polite dev (
        write_command-IsAwake system sysfs dev 0x8C
          (bytes16 preamble ++ (header ∷ payload_length ∷ crc_mode ∷ invert_iq ∷ [])) refl
          (omega arith))
  set_packet_params-IsPolite other_packet = update_packet_type-IsPolite no_packet
