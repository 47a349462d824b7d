-- ===== src/Tests/Files.antt =====
-- The sysfs files at concrete inputs.
use Prim.Native.String.{String}
use rcio_dkms.Base.{
  ℕ, zero, suc, ◌+◌, ◌-◌, ◌*◌, ◌<◌, ◌≡◌, refl, true, Option, none, some, ℤ, pos, List, [], ◌∷◌,
  get_or, arith, leb, ◌==◌, ◌&&◌, if◌then◌else◌,
}
use rcio_dkms.State.{World, initial_pwm, initial_gpio}
use rcio_dkms.Rcin.{Rcin}
use rcio_dkms.Status.{initial_status}
use rcio_dkms.Adc.{initial_adc}
use rcio_dkms.Safety.{initial_safety}
use rcio_dkms.Sysfs.{codes}
use rcio_dkms.Sysfs.Attrs.{Group, find, read_file, write_file}
use rcio_dkms.Sysfs.Channels.{rcin_names, ScanChannel, adc_attrs, rcin_attrs}
use rcio_dkms.Sysfs.Groups.{status_attrs, safety_attrs, gpio_attrs}
use rcio_dkms.Sysfs.Groups.Writes.{sysfs_writes}
use rcio_dkms.Sysfs.Channels.Tables.{position}
use rcio_dkms.Sysfs.Channels.Receiver.{rcin_files}
use rcio_dkms.Tests.{quiet}
use rcio_dkms.Tests.Sysfs.{one_digit}

-- sysfs as it is documented: the files are the attributes before the NULL.
listed : {S : Type 0} → Group S
unfolding find
listed = record {
  file = λ attrs name. find name attrs;
  file_null = λ attrs name. refl;
  file_first = λ x attrs name h. refl;
}

-- A number behind the letters of a channel.
digits : List ℕ → ℕ → Option ℕ
digits [] n = some n
digits (c ∷ cs) n = if leb b'0' c && leb c b'9' then digits cs (n * 10 + (c - b'0')) else none

scan_text : List ℕ → Option ℕ
scan_text (c ∷ h ∷ ds) = if c == b'c' && h == b'h' then digits ds 0 else none
scan_text _ = none

-- The result is the count of the numbers that are stored.
scan : String → ℤ × Option ℕ
scan name = elim (scan_text (codes name)) [ none ↦ (pos 0, none) | some n ↦ (pos 1, some n) ]

scan_name : (i : ℕ) → i < 16 → scan (get_or rcin_names i "") ≡ (pos 1, some i)
unfolding scan scan_text digits
scan_name zero h = refl
scan_name (suc zero) h = refl
scan_name (suc (suc zero)) h = refl
scan_name (suc (suc (suc zero))) h = refl
scan_name (suc (suc (suc (suc zero)))) h = refl
scan_name (suc (suc (suc (suc (suc zero))))) h = refl
scan_name (suc (suc (suc (suc (suc (suc zero)))))) h = refl
scan_name (suc (suc (suc (suc (suc (suc (suc zero))))))) h = refl
scan_name (suc (suc (suc (suc (suc (suc (suc (suc zero)))))))) h = refl
scan_name (suc (suc (suc (suc (suc (suc (suc (suc (suc zero))))))))) h = refl
scan_name (suc (suc (suc (suc (suc (suc (suc (suc (suc (suc zero)))))))))) h = refl
scan_name (suc (suc (suc (suc (suc (suc (suc (suc (suc (suc (suc zero))))))))))) h = refl
scan_name (suc (suc (suc (suc (suc (suc (suc (suc (suc (suc (suc (suc zero)))))))))))) h = refl
scan_name (suc (suc (suc (suc (suc (suc (suc (suc (suc (suc (suc (suc (suc zero))))))))))))) h =
    refl
scan_name (suc (suc (suc (suc (suc (suc (suc (suc (suc (suc (suc (suc (suc (suc zero))))))))))))))
      h =
    refl
scan_name
      (suc (suc (suc (suc (suc (suc (suc (suc (suc (suc (suc (suc (suc (suc (suc zero)))))))))))))))
      h =
    refl
scan_name
      (suc
        (suc (suc (suc (suc (suc (suc (suc (suc (suc (suc (suc (suc (suc (suc (suc x))))))))))))))))
      h =
    absurd (omega arith)

scanning : ScanChannel
scanning = record { sscanf = scan; sscanf_name = scan_name }

receiver : Rcin
receiver = record {
  measurements = 1 ∷ 2 ∷ 3 ∷ 4 ∷ 5 ∷ 6 ∷ 7 ∷ 8 ∷ 9 ∷ 0 ∷ 1 ∷ 2 ∷ 3 ∷ 4 ∷ 5 ∷ 6 ∷ [];
  connected = true;
  timeout = 20;
}

rcin_files_example :
    read_file listed (rcin_attrs one_digit scanning 99) "ch12" receiver
    ≡ some (some (pos 2, codes "3\n"), receiver)
unfolding position receiver
rcin_files_example = rcin_files one_digit scanning 99 listed "ch12" receiver

abbrev rest : World ℕ
rest = record { dev = 0; pwm = initial_pwm; gpio = initial_gpio }

abbrev text : List ℕ
text = codes "5\n"

sysfs_writes_example :
    (write_file listed (adc_attrs one_digit initial_adc) "pwmignore" text initial_adc ≡ none)
    × (write_file listed (rcin_attrs one_digit scanning 99) "pwmignore" text receiver ≡ none)
    × (write_file listed (status_attrs one_digit) "pwmignore" text initial_status ≡ none)
    × (write_file listed (safety_attrs one_digit) "pwmignore" text initial_safety ≡ none)
    × (write_file listed (gpio_attrs one_digit quiet 99) "pwmignore" text rest
        ≡ some (pos 2, record rest { gpio = record initial_gpio { pwm_ignore_writings_mask = 5 } }))
sysfs_writes_example =
    sysfs_writes one_digit "pwmignore" text quiet 99 scanning listed listed listed listed listed
      initial_adc receiver initial_status initial_safety rest
