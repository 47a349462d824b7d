-- ===== src/Adc/Laws.antt =====
-- When the inputs are read, and what a failed read leaves.
use rcio_dkms.Base.{
  ℕ, ◌+◌, ◌/◌, ◌^◌, ◌<◌, ◌≡◌, refl, ap, ltb, ◌∙◌, true, false, ℤ, is_neg, List, arith, length, All,
  if◌then◌else◌,
}
use rcio_dkms.Adapter.{Adapter}
use rcio_dkms.Kernel.{Kernel, ulong, timeout_lem}
use rcio_dkms.Protocol.Packet.{IsWord}
use rcio_dkms.Protocol.Regs.{px4io_page_raw_adc_input}
use rcio_dkms.Registers.{address_of, register_get}
use rcio_dkms.Adc.{Adc, initial_adc, rcio_adc_update}

pub record Measured (measurements : List ℕ) : Type 0 where
  pub all : length measurements ≡ 8
  pub words : All IsWord measurements

abbrev pub AdcInv : Adc → Type 0
AdcInv s = Measured s.measurements

pub initial_adc-AdcInv : AdcInv initial_adc
unfolding initial_adc
initial_adc-AdcInv = record { all = refl; words = omega arith }

module _ {D : Type 0} (a : Adapter D) (k : Kernel) (now later : ℕ) (d : D) (s : Adc) where
  -- A read that fails, and one that is not due, leave every measurement and the timeout as they
  -- were and return false. Any other takes the registers that were read, puts the timeout a
  -- fiftieth of a second on, and returns true.
  pub rcio_adc_update_lem :
      let (ret, values, d') = register_get a d px4io_page_raw_adc_input 0 s.measurements 8 in
      rcio_adc_update a k now later d s ≡ (
        if k.time_before now s.timeout
        then (false, s, d)
        else (if is_neg ret then (false, s, d') else (
          true,
          record s { measurements = values; timeout = ulong (later + k.hz / 50) },
          d',
        )))
  unfolding rcio_adc_update register_get
  rcio_adc_update_lem =
      ground (arith, a.read_result d (address_of px4io_page_raw_adc_input 0) s.measurements 8)

  -- The buffer as a read leaves it.
  register_get-Measured :
      AdcInv s → Measured (register_get a d px4io_page_raw_adc_input 0 s.measurements 8).1
  unfolding register_get
  register_get-Measured inv = record {
    all =
        a.read_length d (address_of px4io_page_raw_adc_input 0) s.measurements 8
          (omega (arith, inv.all))
        ∙ inv.all;
    words = a.read_words d (address_of px4io_page_raw_adc_input 0) s.measurements 8 inv.words;
  }

  pub rcio_adc_update-AdcInv : AdcInv s → AdcInv (rcio_adc_update a k now later d s).1
  unfolding rcio_adc_update
  rcio_adc_update-AdcInv inv =
      let read = register_get-Measured inv in ground (arith, read.all, read.words)

module _ {D : Type 0} (a : Adapter D) (k : Kernel) (now later : ℕ) (d : D) (s : Adc) where
  -- A read that is due and does not fail takes the registers and returns true. An update `e` ticks
  -- after the end of that read, less than half the counter's range on, leaves the device alone and
  -- returns false before a fiftieth of a second, and reads again from then on.
  pub rcio_adc_update_paces :
      (e end : ℕ) (dev : D)
      → let (ret, values, d') = register_get a d px4io_page_raw_adc_input 0 s.measurements 8 in
        k.time_before now s.timeout ≡ false
        → is_neg ret ≡ false
        → e < 2 ^ 31
        → let (updated, s', after) = rcio_adc_update a k now later d s in
          let (ret', values', dev') =
            register_get a dev px4io_page_raw_adc_input 0 s'.measurements 8 in
          (updated ≡ true)
          × (s'.measurements ≡ values)
          × (rcio_adc_update a k (ulong (later + e)) end dev s' ≡ (
              if ltb e (k.hz / 50)
              then (false, s', dev)
              else (if is_neg ret' then (false, s', dev') else (
                true,
                record s' { measurements = values'; timeout = ulong (end + k.hz / 50) },
                dev',
              ))))
  rcio_adc_update_paces e end dev due done short =
      rw (rcio_adc_update_lem a k now later d s, due, done)
        (
          refl,
          refl,
          rcio_adc_update_lem a k (ulong (later + e)) end dev s'
              ∙ ap
                  (λ early.
                    if early
                    then (false, s', dev)
                    else (if is_neg again.0 then (false, s', again.2) else (
                      true,
                      record s' { measurements = again.1; timeout = ulong (end + k.hz / 50) },
                      again.2,
                    )))
                  (timeout_lem k later (k.hz / 50) e (ground arith) short),
        )
    where
      s' : Adc
      s' = record s {
        measurements = (register_get a d px4io_page_raw_adc_input 0 s.measurements 8).1;
        timeout = ulong (later + k.hz / 50);
      }

      again : ℤ × List ℕ × D
      again = register_get a dev px4io_page_raw_adc_input 0 s'.measurements 8
