-- ===== src/Tests/Overlap.antt =====
-- A request for a frequency beside the worker's change of it, at concrete inputs.
use rcio_dkms.Base.{ℕ, ◌+◌, ◌≡◌, refl, some, true, false, [], ◌∷◌, arith, get_or}
use rcio_dkms.Protocol.Regs.{px4io_page_setup, px4io_p_setup_pwm_group1_rate}
use rcio_dkms.Registers.{register_set_byte}
use rcio_dkms.State.{World, Pwm, initial_pwm, initial_gpio}
use rcio_dkms.Pwm.Config.{
  should_change_freq_new_way, should_change_duty_new_way, pwm_group_number, config_blocked, ignores,
}
use rcio_dkms.Pwm.Update.{first_required}
use rcio_dkms.Pwm.Race.{at_rest, Reach}
use rcio_dkms.Pwm.Race.Overlap.{request_lost}
use rcio_dkms.Tests.{clock, quiet}

-- Group 1 runs at 50 and waits for 100: armed until 1000, with the zeros out.
abbrev marked : Pwm
unfolding initial_pwm
marked = record initial_pwm {
  new_frequencies = 50 ∷ 100 ∷ 50 ∷ 50 ∷ [];
  frequencies_update_required = false ∷ true ∷ false ∷ false ∷ [];
  armtimeout = 1000;
  freq_update_noticed = true;
  adv_timer_config_supported = true;
}

abbrev board : World ℕ
board = record { dev = 0; pwm = marked; gpio = initial_gpio }

free : config_blocked initial_gpio marked 4 1_000_000 ≡ false
unfolding config_blocked marked initial_pwm initial_gpio ignores
free = refl

first : first_required marked.frequencies_update_required 0 ≡ some 1
unfolding first_required marked
first = refl

-- A request of pin 4 for 400 Hz.
request_lost_example :
    let i = pwm_group_number 4 in
    (t : World ℕ) × Reach quiet clock (at_rest board) (at_rest t)
    × (t.dev
        ≡ (register_set_byte quiet 0 px4io_page_setup
            (px4io_p_setup_pwm_group1_rate + i)
            (get_or board.pwm.new_frequencies i 0)).1)
    × (get_or t.pwm.frequencies i 0 ≡ 400)
    × (get_or t.pwm.frequencies_update_required i false ≡ false)
    × ((later_pin : ℕ)
        → ((should_change_freq_new_way t.pwm later_pin i 400).0 ≡ false)
          × (should_change_duty_new_way t.pwm i 400 ≡ true))
unfolding marked pwm_group_number initial_pwm
request_lost_example =
    request_lost quiet clock 10 11 board 4 1_000_000 2_500_000 (omega arith) (omega arith) refl refl
      refl refl refl refl first free (omega arith)
