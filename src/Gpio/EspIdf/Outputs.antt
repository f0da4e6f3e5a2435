-- ===== src/Gpio/EspIdf/Outputs.antt =====
-- What analog_write of the ESP-IDF driver puts out, and on which channel.
use jenlib.Common.{
  ℕ, zero, suc, ◌-◌, ◌≤◌, ◌<◌, ◌^◌, ◌≡◌, ◌≢◌, refl, sym, ap, ◌∙◌, ◌⊎◌, inl, inr, Bool, true, false,
  List, [], ◌∷◌, ◌++◌, Option, none, some, arith, length, get_or, replicate, Option-cases, subst,
  length-replicate,
}
use mathlib.Core.List.{append-nil}
use jenlib.Gpio.EspIdf.Duty.{IsDuty, clamp_duty-IsDuty, timer_set_up, init_ledc_keeps}
use jenlib.Gpio.EspIdf.{
  EspIdfGpioDriver, EspCall, ledc_channel_config, ledc_set_duty, ledc_update_duty, new_driver,
  lookup, find_free, allocate, get_or_allocate_channel_for_pin, channel_of, init_ledc, clamp_duty,
  analog_write,
}
use jenlib.Gpio.EspIdf.Channels.{
  IsValid, count_used, find_free-some, find_free-none, count_used-replicate, allocate-IsValid,
  unowned, lookup_cons_self, lookup_cons_ne,
}

-- A pin has its channel for itself, and the others keep theirs. A pin that had none before is
-- configured for its channel by the call made.
abbrev pub Owns : ℕ → ℕ → List EspCall → EspIdfGpioDriver → EspIdfGpioDriver → Type 0
Owns pin ch made d d' =
    (((lookup pin d.pin_to_channel ≡ some ch) × (made ≡ []))
      ⊎ ((lookup pin d.pin_to_channel ≡ none) × (made ≡ ledc_channel_config ch pin ∷ [])))
    × (lookup pin d'.pin_to_channel ≡ some ch)
    × ((q : ℕ)
        → q ≢ pin
        → (lookup q d'.pin_to_channel ≡ lookup q d.pin_to_channel)
          × (lookup q d'.pin_to_channel ≢ some ch))

-- The pin has no channel, all channels are other pins', and channel 0 is taken.
abbrev pub Shares : ℕ → ℕ → ℕ → List EspCall → EspIdfGpioDriver → EspIdfGpioDriver → Type 0
Shares channel_max pin ch made d d' =
    (lookup pin d.pin_to_channel ≡ none)
    × (length d.pin_to_channel ≡ channel_max)
    × (ch ≡ 0)
    × (made ≡ [])
    × (d'.pin_to_channel ≡ d.pin_to_channel)
    × ((other : ℕ) × (other ≢ pin) × (lookup other d.pin_to_channel ≡ some 0))

all_used :
    (used : List Bool)
    → count_used used ≡ length used
    → 0 < length used
    → get_or used 0 false ≡ true
all_used [] e h = absurd (omega arith)
all_used (true ∷ used) e h = refl
all_used (false ∷ used) e h = absurd (omega (arith, e, count_used-le used))
  where
    count_used-le : (used : List Bool) → count_used used ≤ length used
    count_used-le [] = omega arith
    count_used-le (true ∷ used) = omega (arith, count_used-le used)
    count_used-le (false ∷ used) = omega (arith, count_used-le used)

module _ {channel_max : ℕ} {d : EspIdfGpioDriver} (v : IsValid channel_max d) (pin : ℕ)
    (some_channel : 0 < channel_max) where
  abbrev Placed : ℕ × EspIdfGpioDriver → Type 0
  Placed (ch, d') =
      IsValid channel_max d'
      × (d'.analog_write_bits ≡ d.analog_write_bits)
      × (d'.ledc_initialized ≡ d.ledc_initialized)
      × ((made : List EspCall) × (d'.calls ≡ d.calls ++ made)
          × (Owns pin ch made d d' ⊎ Shares channel_max pin ch made d d'))

  known_Placed : (ch : ℕ) → lookup pin d.pin_to_channel ≡ some ch → Placed (ch, d)
  known_Placed ch e = (
    v,
    refl,
    refl,
    (
      [],
      sym (append-nil d.calls),
      inl (inl (e, refl), e, λ q ne. (refl, λ same. ne (v.distinct q pin ch same e))),
    ),
  )

  new_Placed :
      lookup pin d.pin_to_channel ≡ none
      → (free : Option ℕ) → find_free 0 d.channel_used ≡ free
      → Placed (allocate free pin d)
  new_Placed unknown none e =
      let full = find_free-none d.channel_used 0 e in
      let busy = all_used d.channel_used full (omega (arith, v.full_array)) in
      let (other, of_zero) = v.owner 0 busy in
      let ne : other ≢ pin = λ same. cc (of_zero, unknown, same) in
      (
        v,
        refl,
        refl,
        (
          [],
          sym (append-nil d.calls),
          inr (
            unknown,
            omega (arith, full, v.counted, v.full_array),
            refl,
            refl,
            refl,
            (other, ne, of_zero),
          ),
        ),
      )
  new_Placed unknown (some ch) e =
      let (_, _, free_past) = find_free-some d.channel_used 0 ch e in
      let here : ch - 0 ≡ ch = omega arith in
      let free = subst (λ c. get_or d.channel_used c true ≡ false) here free_past in
      let nobody = unowned v pin ch unknown free in
      (
        allocate-IsValid v pin ch unknown free,
        refl,
        refl,
        (
          ledc_channel_config ch pin ∷ [],
          refl,
          inl (
            inr (unknown, refl),
            lookup_cons_self pin ch d.pin_to_channel,
            λ q ne.
                let same = lookup_cons_ne q pin ch d.pin_to_channel ne in
                (same, λ taken. nobody q (sym same ∙ taken)),
          ),
        ),
      )

  get_or_allocate_Placed : Placed (get_or_allocate_channel_for_pin d pin)
  get_or_allocate_Placed = elim (Option-cases (lookup pin d.pin_to_channel)) [
    | inr (ch, e) ↦ subst (λ o. Placed (channel_of o pin d)) (sym e) (known_Placed ch e)
    | inl unknown ↦
        subst (λ o. Placed (channel_of o pin d)) (sym unknown)
          (new_Placed unknown (find_free 0 d.channel_used) refl)
  ]

-- A change of other fields keeps the invariant.
same_channels :
    {channel_max : ℕ} {d : EspIdfGpioDriver} (d' : EspIdfGpioDriver)
    → d'.channel_used ≡ d.channel_used
    → d'.pin_to_channel ≡ d.pin_to_channel
    → IsValid channel_max d
    → IsValid channel_max d'
same_channels {channel_max} {d} d' used map v =
    let u = sym used in
    let m = sym map in
    record {
      full_array = subst (λ l. length l ≡ channel_max) u v.full_array;
      owned = λ p c e. subst (λ l. get_or l c false ≡ true) u (v.owned p c (ap (lookup p) m ∙ e));
      owner = λ c e.
          let (p, found) = v.owner c (subst (λ l. get_or l c false ≡ true) used e) in
          (p, ap (lookup p) map ∙ found);
      distinct = λ p q c e f. v.distinct p q c (ap (lookup p) m ∙ e) (ap (lookup q) m ∙ f);
      counted = ap count_used used ∙ v.counted ∙ ap length m;
    }

-- On a valid ESP-IDF pin driver of a chip with channels, the analog_write of a 16-bit value sets
-- the timer up, if that has not been done, and puts a duty out: the value if it fits the
-- resolution, and the largest duty that fits otherwise. It goes to a channel that is this pin's
-- alone, which the pin is first configured for if it had none, and every other pin keeps its
-- channel; or, if the pin has none and all channels are other pins', to channel 0, which is another
-- pin's, and no pin's channel changes. No other call is made, and the driver is valid and its timer
-- set up afterwards.
pub analog_write_output :
    (channel_max : ℕ) (d : EspIdfGpioDriver) (pin value : ℕ)
    → IsValid channel_max d
    → 0 < channel_max
    → value < 2 ^ 16
    → let d' = analog_write d pin value in
      IsValid channel_max d'
      × (d'.ledc_initialized ≡ true)
      × ((ch duty : ℕ) × (made : List EspCall) × IsDuty d.analog_write_bits value duty
          × (d'.calls
              ≡ d.calls
                ++ timer_set_up d
                ++ made
                ++ (ledc_set_duty ch duty ∷ ledc_update_duty ch ∷ []))
          × (Owns pin ch made d d' ⊎ Shares channel_max pin ch made d d'))
unfolding analog_write
analog_write_output channel_max d pin value v some_channel small =
    let (used, map, bits, started, timer) = init_ledc_keeps d in
    let d1 = init_ledc d in
    let placed = get_or_allocate_channel_for_pin d1 pin in
    let (v2, bits2, started2, (made, calls, place)) =
      get_or_allocate_Placed (same_channels d1 used map v) pin some_channel in
    let duty = clamp_duty placed.1.analog_write_bits value in
    let put = ledc_set_duty placed.0 duty ∷ ledc_update_duty placed.0 ∷ [] in
    (
      same_channels _ refl refl v2,
      started2 ∙ started,
      (
        placed.0,
        duty,
        made,
        subst (λ b. IsDuty b value duty) (bits2 ∙ bits)
            (clamp_duty-IsDuty placed.1.analog_write_bits value small),
        ap (λ l. l ++ put) (calls ∙ ap (λ l. l ++ made) timer),
        place_from pin placed.0 made d d1 placed.1 map place,
      ),
    )
  where
    place_from :
        (pin ch : ℕ) (made : List EspCall) (d d1 d2 : EspIdfGpioDriver)
        → d1.pin_to_channel ≡ d.pin_to_channel
        → Owns pin ch made d1 d2 ⊎ Shares channel_max pin ch made d1 d2
        → Owns pin ch made d d2 ⊎ Shares channel_max pin ch made d d2
    place_from pin ch made d d1 d2 map place =
        subst
          (λ m.
            let d0 = record d1 { pin_to_channel = m } in
            Owns pin ch made d0 d2 ⊎ Shares channel_max pin ch made d0 d2)
          map place

no_pin_used : (n c : ℕ) → get_or (replicate n false) c false ≡ false
no_pin_used zero c = refl
no_pin_used (suc n) zero = refl
no_pin_used (suc n) (suc c) = no_pin_used n c

pub new_driver-IsValid : (channel_max : ℕ) → IsValid channel_max (new_driver channel_max)
new_driver-IsValid channel_max = record {
  full_array = length-replicate channel_max false;
  owned = λ p c e. cc e;
  owner = λ c e. cc (e, no_pin_used channel_max c);
  distinct = λ p q c e f. cc e;
  counted = count_used-replicate channel_max;
}
