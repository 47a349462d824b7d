-- ===== src/Tests/Export.antt =====
-- Two pins exported to GPIO, at concrete inputs.
use rcio_dkms.Base.{ℕ, ◌≡◌, refl, true, [], arith}
use rcio_dkms.Base.Bits.{bit}
use rcio_dkms.Spi.{Link}
use rcio_dkms.Spi.Contract.{spi_adapter}
use rcio_dkms.Gpio.Chip.{gpio_export_gpio_pin}
use rcio_dkms.Gpio.Export.{exported, exports_overlap, export_lost}
use rcio_dkms.Tests.Coprocessor.{Coprocessor, coprocessor, server, data_page, blank-IsPacket, link}

marked : data_page 0x1000 ≡ true
marked = refl

-- The register holds 0x1000 at first: pin 12 is exported.
abbrev mask : Link Coprocessor → ℕ
mask l = exported coprocessor [] tt server marked marked 7 l

abbrev after : ℕ → Link Coprocessor → Link Coprocessor
after pin l = (gpio_export_gpio_pin (spi_adapter coprocessor []) 7 l pin).1

export_lost_example :
    (bit (mask (after 5 (after 3 link))) 3 ≡ 1)
    × (bit (mask (after 5 (after 3 link))) 5 ≡ 1)
    × (bit (mask (exports_overlap coprocessor [] tt server marked marked 7 3 5 link)) 5 ≡ 1)
    × (bit (mask (exports_overlap coprocessor [] tt server marked marked 7 3 5 link)) 3
        ≡ bit (mask link) 3)
export_lost_example =
    export_lost coprocessor [] tt server marked marked 7 link 3 5 blank-IsPacket (omega arith)
      (omega arith) (omega arith)
