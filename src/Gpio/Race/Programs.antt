-- ===== src/Gpio/Race/Programs.antt =====
-- The calls of Gpio/Race.antt run alone, against the functions of Gpio/Pin.antt and Gpio/Chip.antt.
use rcio_dkms.Base.{
  ℕ, zero, suc, ◌+◌, ◌≤◌, ◌<◌, ◌≡◌, refl, ◌∙◌, sym, ap, ltb, List, [], ◌∷◌, ◌++◌, ℤ, get_or, length,
  length-set, get_or-set, tabulate_ext, tabulate-get_or, arith, if◌then◌else◌,
}
use rcio_dkms.Adapter.{Adapter}
use rcio_dkms.Protocol.Pins.{
  gpio_set_pin_gpio_enable, gpio_set_pin_state_low, gpio_set_pin_direction_input,
  gpio_set_pin_direction_output,
}
use rcio_dkms.State.{World, Gpio}
use rcio_dkms.Gpio.Pin.{
  on_pin, update_enqueue, gpio_chip_set, gpio_direction_input, gpio_direction_output,
  rcio_gpio_force_update,
}
use rcio_dkms.Gpio.Chip.{take_pin}
use rcio_dkms.Gpio.Laws.{rcio_gpio_force_update_lem}
use rcio_dkms.Gpio.Race.{
  Act, copies, force_update, enqueue, put_low, chip_set, direction_input, direction_output,
  request_pin, program, act, copied,
}

-- A call that no other thread interrupts: the variables, and what was last sent.
unfoldable run : List Act → ℕ → Gpio → List ℕ → Gpio × List ℕ
run [] n g sent = (g, sent)
run (a ∷ rest) n g sent = let (n', g', sent') = act a n g sent in run rest n' g' sent'

unfoldable pub copies_sent : (pin n : ℕ) → Gpio → List ℕ → List ℕ
copies_sent pin zero g sent = sent
copies_sent pin (suc n) g sent = copies_sent (suc pin) n g (copied pin g sent)

run-copies :
    (pin n loaded : ℕ) (g : Gpio) (sent : List ℕ) (rest : List Act)
    → run (copies pin n ++ rest) loaded g sent ≡ run rest loaded g (copies_sent pin n g sent)
unfolding run copies act copies_sent
run-copies pin zero loaded g sent rest = refl
run-copies pin (suc n) loaded g sent rest = run-copies (suc pin) n loaded g (copied pin g sent) rest

length-copies_sent :
    (pin n : ℕ) (g : Gpio) (sent : List ℕ) → length (copies_sent pin n g sent) ≡ length sent
unfolding copies_sent
length-copies_sent pin zero g sent = refl
length-copies_sent pin (suc n) g sent =
    length-copies_sent (suc pin) n g (copied pin g sent) ∙ length-set sent pin _

-- A register before the copied ones is the old one, a copied one is the pin's.
get_or-copies_sent :
    (pin n : ℕ) (g : Gpio) (sent : List ℕ) (j : ℕ)
    → pin + n ≤ length sent
    → j < pin + n
    → get_or (copies_sent pin n g sent) j 0
      ≡ (if ltb j pin then get_or sent j 0 else get_or g.pin_states j 0)
unfolding copies_sent
get_or-copies_sent pin zero g sent j h h' = ground arith
get_or-copies_sent pin (suc n) g sent j h h' = ground (
  arith,
  get_or-copies_sent (suc pin) n g (copied pin g sent) j
      (omega (arith, length-set sent pin (get_or g.pin_states pin 0))),
  get_or-set sent pin j (get_or g.pin_states pin 0) 0 (omega arith),
)

pub copies_sent_all :
    (g : Gpio) (sent : List ℕ)
    → length g.pin_states ≡ 16
    → length sent ≡ 16
    → copies_sent 0 16 g sent ≡ g.pin_states
copies_sent_all g sent all all' =
    sym (tabulate-get_or 16 (copies_sent 0 16 g sent) 0 (length-copies_sent 0 16 g sent ∙ all'))
    ∙ tabulate_ext 16 (λ i. get_or (copies_sent 0 16 g sent) i 0) (λ i. get_or g.pin_states i 0)
        (λ i h. get_or-copies_sent 0 16 g sent i (omega arith) h ∙ ground arith)
    ∙ tabulate-get_or 16 g.pin_states 0 all

run-force_update :
    (loaded : ℕ) (g : Gpio) (sent : List ℕ) (rest : List Act)
    → run (force_update ++ rest) loaded g sent ≡ run rest loaded g (copies_sent 0 16 g sent)
unfolding force_update
run-force_update loaded g sent rest = run-copies 0 16 loaded g sent rest

run-chip_set :
    (offset : ℕ) (value : ℤ) (loaded : ℕ) (g : Gpio) (sent : List ℕ)
    → run (program (chip_set offset value)) loaded g sent ≡ (gpio_chip_set offset value g, sent)
unfolding run program act gpio_chip_set update_enqueue
run-chip_set offset value loaded g sent = ground arith

run-last_update :
    (loaded : ℕ) (g : Gpio) (sent : List ℕ)
    → length g.pin_states ≡ 16
    → length sent ≡ 16
    → run force_update loaded g sent ≡ (g, g.pin_states)
unfolding force_update copies run
run-last_update loaded g sent all all' =
    run-copies 0 16 loaded g sent [] ∙ ap (λ ps. (g, ps)) (copies_sent_all g sent all all')

run-update :
    (loaded : ℕ) (g : Gpio) (sent : List ℕ) (rest : List Act)
    → length g.pin_states ≡ 16
    → length sent ≡ 16
    → run (force_update ++ rest) loaded g sent ≡ run rest loaded g g.pin_states
run-update loaded g sent rest all all' =
    run-force_update loaded g sent rest ∙ ap (run rest loaded g) (copies_sent_all g sent all all')

length-on_pin :
    (f : ℕ → ℕ) (offset : ℕ) (g : Gpio)
    → length (on_pin f offset g).pin_states ≡ length g.pin_states
unfolding on_pin
length-on_pin f offset g = length-set g.pin_states offset _

module _ {D : Type 0} (a : Adapter D) (junk : ℕ) (w : World D) (offset loaded : ℕ)
    (sent : List ℕ) where
  run-direction_input :
      length w.gpio.pin_states ≡ 16
      → length sent ≡ 16
      → let g = (gpio_direction_input a w offset).1.gpio in
        run (program (direction_input offset)) loaded w.gpio sent ≡ (g, g.pin_states)
  unfolding run program act gpio_direction_input
  run-direction_input all all' =
      let g = on_pin gpio_set_pin_direction_input offset w.gpio in
      run-last_update loaded g sent (length-on_pin gpio_set_pin_direction_input offset w.gpio ∙ all)
        all'
      ∙ ap (λ r. (r.1.gpio, r.1.gpio.pin_states))
          (sym (rcio_gpio_force_update_lem a (record w { gpio = g })))

  run-direction_output :
      (value : ℤ)
      → length w.gpio.pin_states ≡ 16
      → length sent ≡ 16
      → let g = (gpio_direction_output a w offset value).1.gpio in
        run (program (direction_output offset)) loaded w.gpio sent ≡ (g, g.pin_states)
  unfolding run program act gpio_direction_output
  run-direction_output value all all' =
      let g = on_pin gpio_set_pin_direction_output offset w.gpio in
      run-last_update loaded g sent
        (length-on_pin gpio_set_pin_direction_output offset w.gpio ∙ all) all'
      ∙ ap (λ r. (r.1.gpio, r.1.gpio.pin_states))
          (sym (rcio_gpio_force_update_lem a (record w { gpio = g })))

  force-gpio : (w' : World D) → (rcio_gpio_force_update a w').1.gpio ≡ w'.gpio
  force-gpio w' = ap (λ r. r.1.gpio) (rcio_gpio_force_update_lem a w')

  abbrev enabled : Gpio
  enabled = on_pin gpio_set_pin_gpio_enable offset (on_pin (λ _. 0x0000) offset w.gpio)

  abbrev lowered : Gpio
  lowered =
      on_pin gpio_set_pin_state_low offset (on_pin gpio_set_pin_direction_output offset enabled)

  take_pin-gpio : (take_pin a junk w offset).gpio ≡ update_enqueue lowered
  unfolding take_pin
  take_pin-gpio = ap update_enqueue (
      force-gpio _
      ∙ ap
          (λ g.
            on_pin gpio_set_pin_state_low offset (on_pin gpio_set_pin_direction_output offset g))
          (force-gpio (record w { gpio = enabled })))

  run-request_pin :
      length w.gpio.pin_states ≡ 16
      → length sent ≡ 16
      → let g = (take_pin a junk w offset).gpio in
        run (program (request_pin offset)) loaded w.gpio sent ≡ (g, g.pin_states)
  unfolding run program act update_enqueue
  run-request_pin all all' =
      run-update loaded enabled sent (put_low offset) enabled_all all'
      ∙ run-update loaded lowered enabled.pin_states enqueue lowered_all enabled_all
      ∙ ap (λ g. (g, g.pin_states)) (sym take_pin-gpio)
    where
      enabled_all : length enabled.pin_states ≡ 16
      enabled_all =
          length-on_pin gpio_set_pin_gpio_enable offset (on_pin (λ _. 0x0000) offset w.gpio)
          ∙ length-on_pin (λ _. 0x0000) offset w.gpio
          ∙ all

      lowered_all : length lowered.pin_states ≡ 16
      lowered_all =
          length-on_pin gpio_set_pin_state_low offset
            (on_pin gpio_set_pin_direction_output offset enabled)
          ∙ length-on_pin gpio_set_pin_direction_output offset enabled
          ∙ enabled_all

  -- With 16 pins, a call that no other thread interrupts leaves the variables of the pins that the
  -- function leaves: gpio_chip_set, the two directions, and gpio_chip_request once the pin is
  -- exported. All but gpio_chip_set have then sent every pin as it is.
  programs_alone :
      (value : ℤ)
      → length w.gpio.pin_states ≡ 16
      → length sent ≡ 16
      → let input = (gpio_direction_input a w offset).1.gpio in
        let output = (gpio_direction_output a w offset value).1.gpio in
        let taken = (take_pin a junk w offset).gpio in
        (run (program (chip_set offset value)) loaded w.gpio sent
          ≡ (gpio_chip_set offset value w.gpio, sent))
        × (run (program (direction_input offset)) loaded w.gpio sent ≡ (input, input.pin_states))
        × (run (program (direction_output offset)) loaded w.gpio sent ≡ (output, output.pin_states))
        × (run (program (request_pin offset)) loaded w.gpio sent ≡ (taken, taken.pin_states))
  programs_alone value all all' = (
    run-chip_set offset value loaded w.gpio sent,
    run-direction_input all all',
    run-direction_output value all all',
    run-request_pin all all',
  )
