-- ===== src/Sysfs/Laws.antt =====
-- What a reader of the sysfs files gets.
use rcio_dkms.Base.{ℕ, ◌≡◌, refl, ◌∙◌, ap, Bool, true, false, Option, some, ℤ, pos, ◌++◌, arith}
use rcio_dkms.Safety.{Safety, heartbeat_enabled_store}
use rcio_dkms.Status.{Status}
use rcio_dkms.Rcin.{Rcin}
use rcio_dkms.Sysfs.{
  Format, Shown, sprintf, one_or_zero, newline, init_ok_show, pwm_ok_show, alive_show,
  heartbeat_enabled_show, connected_show,
}

module _ (fmt : Format) where
  -- The number that kstrtol finds in what was shown.
  abbrev pub parsed : Shown → Option ℤ
  parsed shown = fmt.kstrtol shown.1 10

  parsed_flag :
      (b : Bool)
      → parsed (sprintf (fmt.percent_d (one_or_zero b) ++ newline)) ≡ some (one_or_zero b)
  parsed_flag true =
      ap (λ t. fmt.kstrtol (t ++ newline) 10) (fmt.percent_d_digit 1 (omega arith))
      ∙ fmt.kstrtol_digit 1 (omega arith)
  parsed_flag false =
      ap (λ t. fmt.kstrtol (t ++ newline) 10) (fmt.percent_d_digit 0 (omega arith))
      ∙ fmt.kstrtol_digit 0 (omega arith)

  store_flag :
      (s : Safety) (b : Bool) (count : ℕ)
      → heartbeat_enabled_store (some (one_or_zero b)) count s
        ≡ (pos count, record s { heartbeat_enabled = b })
  unfolding heartbeat_enabled_store
  store_flag s true count = refl
  store_flag s false count = refl

  -- The text that the file heartbeat_enabled shows of one state, stored into any state of the
  -- module, is taken whole and gives it the flag of the state that was shown.
  pub heartbeat_enabled_store-show :
      (shown s : Safety) (count : ℕ)
      → heartbeat_enabled_store (parsed (heartbeat_enabled_show fmt shown)) count s
        ≡ (pos count, record s { heartbeat_enabled = shown.heartbeat_enabled })
  unfolding heartbeat_enabled_show
  heartbeat_enabled_store-show shown s count =
      ap (λ p. heartbeat_enabled_store p count s) (parsed_flag shown.heartbeat_enabled)
      ∙ store_flag s shown.heartbeat_enabled count

  -- What the files init_ok, pwm_ok, alive and connected show is read back as 1 for a flag that is
  -- set and as 0 for one that is not.
  pub flags_shown :
      (s : Status) (r : Rcin)
      → (parsed (init_ok_show fmt s) ≡ some (one_or_zero s.init_ok))
        × (parsed (pwm_ok_show fmt s) ≡ some (one_or_zero s.pwm_ok))
        × (parsed (alive_show fmt s) ≡ some (one_or_zero s.alive))
        × (parsed (connected_show fmt r) ≡ some (one_or_zero r.connected))
  unfolding init_ok_show pwm_ok_show alive_show connected_show
  flags_shown s r =
      (parsed_flag s.init_ok, parsed_flag s.pwm_ok, parsed_flag s.alive, parsed_flag r.connected)
