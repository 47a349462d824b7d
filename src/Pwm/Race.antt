-- ===== src/Pwm/Race.antt =====
-- src/rcio_pwm.c as two threads run it: the worker changes the frequency of a group while a caller
-- of rcio_pwm_config asks for one, a shared access at a time. Nothing in the source orders the two.
pub mod Overlap
use rcio_dkms.Base.{ℕ, ◌+◌, ◌/◌, ◌≡◌, Bool, true, false, some, get_or, set}
use rcio_dkms.Adapter.{Adapter}
use rcio_dkms.Kernel.{Kernel, ulong}
use rcio_dkms.Protocol.Regs.{px4io_page_setup, px4io_p_setup_pwm_group1_rate}
use rcio_dkms.Registers.{register_set_byte}
use rcio_dkms.State.{World}
use rcio_dkms.Pwm.Config.{
  should_change_freq_new_way, should_change_duty_new_way, store_duty, pwm_group_number,
  config_blocked,
}
use rcio_dkms.Pwm.Config.Laws.{frequency_of}
use rcio_dkms.Pwm.Update.{first_required}
use rcio_dkms.Pwm.Update.Laws.{armed_at, armed_world}

-- The worker in the loop over the groups: outside it, behind the test of group `i`, behind the
-- write to the device, and behind the assignment to `frequencies`.
pub data Updater : Type 0 where
  resting : Updater
  required sent recorded : (i : ℕ) → Updater

-- A caller of rcio_pwm_config with the advanced configuration: outside it, behind its decision to
-- change the group of `pin` to `f`, behind the store of the frequency, and behind the mark.
pub data Asker : Type 0 where
  idle : Asker
  decided stored marked : (pin duty_ns f : ℕ) → Asker

pub record Race (D : Type 0) : Type 0 where
  pub world : World D
  pub updater : Updater
  pub asker : Asker

abbrev pub at_rest : {D : Type 0} → World D → Race D
at_rest w = record { world = w; updater = resting; asker = idle }

-- `frequencies[i] = new_frequencies[i];`
unfoldable pub record_group : {D : Type 0} → World D → ℕ → World D
record_group w i = record w {
  pwm = record (w.pwm) { frequencies = set w.pwm.frequencies i (get_or w.pwm.new_frequencies i 0) };
}

-- `frequencies_update_required[i] = flag;`
unfoldable pub mark_group : {D : Type 0} → World D → ℕ → Bool → World D
mark_group w i flag = record w {
  pwm = record (w.pwm) {
    frequencies_update_required = set w.pwm.frequencies_update_required i flag;
  };
}

-- `new_frequencies[g] = f;`
unfoldable pub store_group : {D : Type 0} → World D → ℕ → ℕ → World D
store_group w g f = record w {
  pwm = record (w.pwm) { new_frequencies = set w.pwm.new_frequencies g f };
}

-- `armtimeout = jiffies + HZ / 10;`
unfoldable pub put_off : {D : Type 0} → Kernel → ℕ → World D → World D
put_off k jiffies w = record w { pwm = record (w.pwm) { armtimeout = ulong (jiffies + k.hz / 10) } }

-- The end of a request: the duty, where the group's frequency in use is the one asked for.
unfoldable pub put_duty : {D : Type 0} → World D → ℕ → ℕ → ℕ → World D
put_duty w pin duty_ns f = record w {
  pwm = store_duty (should_change_duty_new_way w.pwm (pwm_group_number pin) f) pin duty_ns w.pwm;
}

module _ {D : Type 0} (a : Adapter D) (k : Kernel) where
  -- The register_set_byte of a group's rate.
  unfoldable pub send_group : World D → ℕ → World D
  send_group w i = record w {
    dev =
        (register_set_byte a w.dev px4io_page_setup (px4io_p_setup_pwm_group1_rate + i)
          (get_or w.pwm.new_frequencies i 0)).1;
  }

  -- A call of rcio_pwm_update comes to a group with the outputs armed, the changes noticed, so that
  -- the zeros are out, and the advanced configuration; the group is the first that waits. A call of
  -- rcio_pwm_config comes to a change if it is not blocked, the new way.
  pub data Step (s : Race D) : Race D → Type 0 where
    test :
        (jiffies i : ℕ)
        → s.updater ≡ resting
        → armed_at k jiffies s.world.pwm.armtimeout ≡ true
        → s.world.pwm.freq_update_noticed ≡ true
        → s.world.pwm.adv_timer_config_supported ≡ true
        → first_required s.world.pwm.frequencies_update_required 0 ≡ some i
        → Step s (record s { world = armed_world a k jiffies s.world; updater = required i })
    send :
        {i : ℕ}
        → s.updater ≡ required i
        → Step s (record s { world = send_group s.world i; updater = sent i })
    note :
        {i : ℕ}
        → s.updater ≡ sent i
        → Step s (record s { world = record_group s.world i; updater = recorded i })
    unmark :
        {i : ℕ}
        → s.updater ≡ recorded i
        → Step s (record s { world = mark_group s.world i false; updater = resting })
    decide :
        (jiffies pin duty_ns period_ns : ℕ)
        → s.asker ≡ idle
        → config_blocked s.world.gpio s.world.pwm pin duty_ns ≡ false
        → s.world.pwm.adv_timer_config_supported ≡ true
        → (should_change_freq_new_way s.world.pwm pin
            (pwm_group_number pin)
            (frequency_of period_ns)).0
          ≡ true
        → Step s (record s {
          world = put_off k jiffies s.world;
          asker = decided pin duty_ns (frequency_of period_ns);
        })
    store :
        {pin duty_ns f : ℕ}
        → s.asker ≡ decided pin duty_ns f
        → Step s (record s {
          world = store_group s.world (pwm_group_number pin) f;
          asker = stored pin duty_ns f;
        })
    mark :
        {pin duty_ns f : ℕ}
        → s.asker ≡ stored pin duty_ns f
        → Step s (record s {
          world = mark_group s.world (pwm_group_number pin) true;
          asker = marked pin duty_ns f;
        })
    put :
        {pin duty_ns f : ℕ}
        → s.asker ≡ marked pin duty_ns f
        → Step s (record s { world = put_duty s.world pin duty_ns f; asker = idle })

  pub data Reach (s : Race D) : Race D → Type 0 where
    here : Reach s s
    next : {now after : Race D} → Reach s now → Step now after → Reach s after
