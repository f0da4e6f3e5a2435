-- ===== src/Gpio/Wrapper.antt =====
-- The wrapper with and without a driver.
use jenlib.Common.{ℕ, ◌≡◌, refl, none, some}
use jenlib.Gpio.{
  GpioDriver, Gpio, set_analog_read_resolution, set_analog_write_resolution,
  get_analog_read_resolution, get_analog_write_resolution, set_driver,
}

module _ {D : Type 0} (interface : GpioDriver D) where
  -- What the interface says of the resolutions: a getter returns what was set last.
  pub record KeepsResolutions : Type 0 where
    pub read_kept :
        (d : D) (bits : ℕ)
        → interface.get_analog_read_resolution (interface.set_analog_read_resolution d bits) ≡ bits
    pub write_kept :
        (d : D) (bits : ℕ)
        → interface.get_analog_write_resolution (interface.set_analog_write_resolution d bits)
          ≡ bits

  -- A resolution that is set is returned, with a driver that keeps it and without one; one that is set
  -- before there is a driver does not reach the driver that is set later, whose own one is returned then.
  pub resolution_set :
      (g : Gpio D) (bits : ℕ) (later : D)
      → KeepsResolutions
      → let gr = set_analog_read_resolution interface bits g in
        let gw = set_analog_write_resolution interface bits g in
        (get_analog_read_resolution interface gr ≡ bits)
        × (get_analog_write_resolution interface gw ≡ bits)
        × (get_analog_read_resolution interface (set_driver (some later) gr)
            ≡ interface.get_analog_read_resolution later)
        × (get_analog_write_resolution interface (set_driver (some later) gw)
            ≡ interface.get_analog_write_resolution later)
  unfolding set_analog_read_resolution set_analog_write_resolution get_analog_read_resolution
      get_analog_write_resolution
  resolution_set g bits later k =
      elim g.driver
        as (λ driver.
          let g' : Gpio D = record g { driver = driver } in
          let gr = set_analog_read_resolution interface bits g' in
          let gw = set_analog_write_resolution interface bits g' in
          (get_analog_read_resolution interface gr ≡ bits)
          × (get_analog_write_resolution interface gw ≡ bits)
          × (get_analog_read_resolution interface (set_driver (some later) gr)
              ≡ interface.get_analog_read_resolution later)
          × (get_analog_write_resolution interface (set_driver (some later) gw)
              ≡ interface.get_analog_write_resolution later)) [
                | none ↦ (refl, refl, refl, refl)
                | some d ↦ (k.read_kept d bits, k.write_kept d bits, refl, refl)
              ]
