-- ===== src/Gpio/Tests.antt =====
-- The pin drivers at concrete inputs.
use jenlib.Common.{ℕ, ◌≡◌, refl, ◌⊎◌, true, List, [], ◌∷◌, ◌++◌, arith}
use jenlib.Common.Int.{pos}
use jenlib.Gpio.{GpioDriver}
use jenlib.Gpio.Wrapper.{KeepsResolutions}
use jenlib.Gpio.EspIdf.{
  EspIdfGpioDriver, adc12, esp32, EspCall, ledc_set_duty, ledc_update_duty, new_driver,
  analog_write, analog_read, esp_idf_gpio, set_analog_read_resolution as set_read_bits,
  set_analog_write_resolution as set_write_bits,
}
use jenlib.Gpio.EspIdf.Duty.{IsDuty, timer_set_up}
use jenlib.Gpio.EspIdf.Channels.{IsValid}
use jenlib.Gpio.EspIdf.Outputs.{Owns, Shares, analog_write_output, new_driver-IsValid}
use jenlib.Gpio.EspIdf.Scaling.{ScaledTo, analog_read_scales}

-- The ESP-IDF driver on a chip whose inputs are all high.
abbrev chip_gpio : GpioDriver EspIdfGpioDriver
chip_gpio = esp_idf_gpio adc12 (λ _. 1) (λ width pin. pos 4095)

write_kept : (d : EspIdfGpioDriver) (bits : ℕ) → (set_write_bits d bits).analog_write_bits ≡ bits
write_kept d bits = ground arith

chip_gpio-KeepsResolutions : KeepsResolutions chip_gpio
chip_gpio-KeepsResolutions = record { read_kept = λ d bits. refl; write_kept = write_kept }

-- A chip with one channel.
analog_write_output_example :
    let d = new_driver 1 in
    let d' = analog_write d 4 300 in
    IsValid 1 d'
    × (d'.ledc_initialized ≡ true)
    × ((ch duty : ℕ) × (made : List EspCall) × IsDuty 8 300 duty
        × (d'.calls
            ≡ d.calls
              ++ timer_set_up d
              ++ made
              ++ (ledc_set_duty ch duty ∷ ledc_update_duty ch ∷ []))
        × (Owns 4 ch made d d' ⊎ Shares 1 4 ch made d d'))
analog_write_output_example =
    analog_write_output 1 (new_driver 1) 4 300 (new_driver-IsValid 1) (omega arith) (omega arith)

analog_read_scales_example :
    ScaledTo 10 700 (analog_read esp32 (λ width pin. pos 700) (set_read_bits (new_driver 8) 10) 4).0
analog_read_scales_example =
    analog_read_scales esp32 (λ width pin. pos 700) (set_read_bits (new_driver 8) 10) 4 700 refl
      refl (omega arith)
