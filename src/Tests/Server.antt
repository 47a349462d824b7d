-- ===== src/Tests/Server.antt =====
-- The transactions of src/rcio_spi.c with the coprocessor of Spi.Server, at concrete inputs.
use rcio_dkms.Base.{◌≡◌, refl, false, pos, List, [], ◌∷◌, arith, replicate}
use rcio_dkms.Spi.{Link, rcio_spi_read, rcio_spi_write}
use rcio_dkms.Spi.Server.{Within, get_registers, put_registers}
use rcio_dkms.Spi.Server.Laws.{rcio_spi_read-rcio_spi_write}
use rcio_dkms.Spi.Server.Runs.{
  Call, write_call, read_call, on_bus, on_registers, on_bus-on_registers,
}
use rcio_dkms.Spi.Contract.{spi_adapter}
use rcio_dkms.State.{World, Pwm, initial_pwm, initial_gpio}
use rcio_dkms.Pwm.Invariant.{PwmInv, initial_pwm-PwmInv}
use rcio_dkms.Pwm.Update.{some_freq_updated, rcio_pwm_update}
use rcio_dkms.Core.Delivery.{rcio_pwm_update_delivers}
use rcio_dkms.Tests.{clock}
use rcio_dkms.Tests.Coprocessor.{
  Coprocessor, registers_of, coprocessor, server, data_page, blank-IsPacket, link,
}

two : Within data_page 0x3605 2
two = (omega arith, λ i h. ground arith)

-- A write, and a read of the same registers.
abbrev calls : List Call
calls = write_call 0x3605 (7 ∷ 8 ∷ []) 2 ∷ read_call 0x3605 (1 ∷ 2 ∷ 3 ∷ []) 2 ∷ []

on_bus-on_registers_example :
    ((on_bus coprocessor [] calls link).0 ≡ (pos 2, 7 ∷ 8 ∷ []) ∷ (pos 2, 7 ∷ 8 ∷ 3 ∷ []) ∷ [])
    × (registers_of (on_bus coprocessor [] calls link).1.bus
        ≡ put_registers (registers_of link.bus) 0x3605 (7 ∷ 8 ∷ []))
unfolding on_registers
on_bus-on_registers_example =
    on_bus-on_registers coprocessor [] tt server calls link blank-IsPacket (
      (omega arith, omega arith, omega arith, omega arith, two),
      ((omega arith, omega arith, two), tt),
    )

rcio_spi_read-rcio_spi_write_example :
    let (written, l') = rcio_spi_write coprocessor [] link 0x3605 (7 ∷ 8 ∷ []) 2 in
    let (result, after, l'') = rcio_spi_read coprocessor [] l' 0x3605 (1 ∷ 2 ∷ 3 ∷ []) 2 in
    (written ≡ pos 2) × (result ≡ pos 2) × (after ≡ 7 ∷ 8 ∷ 3 ∷ [])
rcio_spi_read-rcio_spi_write_example =
    rcio_spi_read-rcio_spi_write coprocessor [] tt server link 0x3605 (7 ∷ 8 ∷ []) (1 ∷ 2 ∷ 3 ∷ [])
      2 blank-IsPacket (omega arith) (omega arith) (omega arith) (omega arith) two two

-- All outputs at 1500, armed until 1000.
abbrev outputs : Pwm
outputs = record initial_pwm { values = replicate 16 1500; armtimeout = 1000 }

outputs-PwmInv : PwmInv outputs
outputs-PwmInv =
    let inv = initial_pwm-PwmInv false in
    unfold initial_pwm in
    record {
      values_all = refl;
      values_words = omega arith;
      frequencies_all = inv.frequencies_all;
      new_frequencies_all = inv.new_frequencies_all;
      required_all = inv.required_all;
      settled = inv.settled;
      new_way = inv.new_way;
      old_way = inv.old_way;
    }

outputs_quiet : some_freq_updated outputs ≡ false
unfolding some_freq_updated initial_pwm
outputs_quiet = refl

abbrev board : World (Link Coprocessor)
board = record { dev = link; pwm = outputs; gpio = initial_gpio }

rcio_pwm_update_delivers_example :
    let w' = (rcio_pwm_update (spi_adapter coprocessor []) clock 10 board).1 in
    (get_registers (registers_of w'.dev.bus) 0x3600 16 ≡ replicate 16 1500)
    × (w'.pwm.values ≡ replicate 16 1500)
unfolding initial_pwm
rcio_pwm_update_delivers_example =
    rcio_pwm_update_delivers coprocessor [] tt server clock 10 board
      (omega arith, λ i h. ground arith) refl outputs_quiet outputs-PwmInv (omega arith)
      blank-IsPacket
