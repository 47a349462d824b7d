-- ===== src/Pwm/Update/Progress.antt =====
-- A change of frequencies comes to its end: the groups are updated one in a call, behind the zeros.
use mathlib.Core.Option
use rcio_dkms.Base.{
  ℕ, zero, suc, ◌+◌, ◌-◌, ◌<◌, ◌≡◌, refl, ap, sym, replicate, ◌∙◌, Bool, true, false, some, List,
  [], ◌∷◌, arith, length, get_or, set, All, if_then,
}
use rcio_dkms.Adapter.{Adapter}
use rcio_dkms.Kernel.{Kernel}
use rcio_dkms.Protocol.Regs.{px4io_page_setup, px4io_p_setup_pwm_group1_rate, px4io_page_direct_pwm}
use rcio_dkms.Registers.{register_set, register_set_byte}
use rcio_dkms.State.{World}
use rcio_dkms.Pwm.Update.{
  any_required, some_freq_updated, first_required, pending_frequency, update_group,
  rcio_pwm_update_frequency, after_frequency, rcio_pwm_update,
}
use rcio_dkms.Pwm.Update.Laws.{armed_at, armed_world, rcio_pwm_update_clears, rcio_pwm_update-armed}
use rcio_dkms.Pwm.Invariant.{PwmInv}
use rcio_dkms.Pwm.Invariant.Steps.{rcio_pwm_update-PwmInv}

-- How many groups wait for an update.
unfoldable pub waiting : List Bool → ℕ
waiting [] = 0
waiting (true ∷ rs) = 1 + waiting rs
waiting (false ∷ rs) = waiting rs

any_required-true : (rs : List Bool) → any_required rs true ≡ true
unfolding any_required
any_required-true [] = refl
any_required-true (r ∷ rs) = any_required-true rs

any_required-waiting : (rs : List Bool) (n : ℕ) → waiting rs ≡ suc n → any_required rs false ≡ true
unfolding any_required waiting
any_required-waiting [] n h = absurd (omega arith)
any_required-waiting (true ∷ rs) n h = any_required-true rs
any_required-waiting (false ∷ rs) n h = any_required-waiting rs n h

none_waiting : (rs : List Bool) → waiting rs ≡ 0 → (i : ℕ) → get_or rs i false ≡ false
unfolding waiting
none_waiting [] h i = refl
none_waiting (true ∷ rs) h i = absurd (omega arith)
none_waiting (false ∷ rs) h zero = refl
none_waiting (false ∷ rs) h (suc i) = none_waiting rs h i

module _ {D : Type 0} (a : Adapter D) (k : Kernel) where
  -- Calls of rcio_pwm_update at the given times, one after another.
  unfoldable pub updates : List ℕ → World D → World D
  updates [] w = w
  updates (t ∷ ts) w = updates ts (rcio_pwm_update a k t w).1

  -- The write of a group's frequency to the register of its rate.
  abbrev pub write_rate : (news : List ℕ) → ℕ → D → D
  write_rate news i d =
      (register_set_byte a d px4io_page_setup (px4io_p_setup_pwm_group1_rate + i)
        (get_or news i 0)).1

  -- The device after these writes for the groups that wait, from group `i` on, in their order.
  unfoldable pub rates_sent : (news : List ℕ) → List Bool → ℕ → D → D
  rates_sent news [] i d = d
  rates_sent news (false ∷ rs) i d = rates_sent news rs (i + 1) d
  rates_sent news (true ∷ rs) i d = rates_sent news rs (i + 1) (write_rate news i d)

  -- The first group that waits is the first that is written.
  first_waiting :
      (news : List ℕ) (rs : List Bool) (i n : ℕ)
      → waiting rs ≡ suc n
      → (m : ℕ) × (first_required rs i ≡ some (i + m))
        × (waiting (set rs m false) ≡ n)
        × ((d : D)
            → rates_sent news rs i d
              ≡ rates_sent news (set rs m false) i (write_rate news (i + m) d))
  unfolding first_required waiting rates_sent
  first_waiting news [] i n h = absurd (omega arith)
  first_waiting news (true ∷ rs) i n h = (
    0,
    ap some (omega arith),
    omega arith,
    λ d. ap (λ j. rates_sent news rs (i + 1) (write_rate news j d)) {x = i} (omega arith),
  )
  first_waiting news (false ∷ rs) i n h =
      let (m, found, left, first) = first_waiting news rs (i + 1) n h in
      (
        suc m,
        found ∙ ap some (omega arith),
        left,
        λ d.
            first d
            ∙ ap (λ j. rates_sent news (set rs m false) (i + 1) (write_rate news j d))
                {x = i + 1 + m} (omega arith),
      )

  rates_sent-none :
      (news : List ℕ) (rs : List Bool) (i : ℕ) (d : D) → waiting rs ≡ 0 → rates_sent news rs i d ≡ d
  unfolding rates_sent waiting
  rates_sent-none news [] i d h = refl
  rates_sent-none news (true ∷ rs) i d h = absurd (omega arith)
  rates_sent-none news (false ∷ rs) i d h = rates_sent-none news rs (i + 1) d h

  -- A call with the zeros out and groups waiting updates one of them.
  group_step :
      (t n : ℕ) (w : World D)
      → w.pwm.adv_timer_config_supported ≡ true
      → w.pwm.freq_update_noticed ≡ true
      → waiting w.pwm.frequencies_update_required ≡ suc n
      → armed_at k t w.pwm.armtimeout ≡ true
      → let (ok, w') = rcio_pwm_update a k t w in
        (waiting w'.pwm.frequencies_update_required ≡ n)
        × (w'.pwm.adv_timer_config_supported ≡ true)
        × (w'.pwm.freq_update_noticed ≡ true)
        × (w'.pwm.armtimeout ≡ w.pwm.armtimeout)
        × (w'.pwm.new_frequencies ≡ w.pwm.new_frequencies)
        × (w'.pwm.values ≡ w.pwm.values)
        × (rates_sent w.pwm.new_frequencies w.pwm.frequencies_update_required 0 w.dev
            ≡ rates_sent w.pwm.new_frequencies w'.pwm.frequencies_update_required 0 w'.dev)
  group_step t n w adv noticed some_wait on =
      let (m, found, left, first) =
        first_waiting w.pwm.new_frequencies w.pwm.frequencies_update_required 0 n some_wait in
      let sent : rates_sent w.pwm.new_frequencies w.pwm.frequencies_update_required 0 w.dev
          ≡ rates_sent w.pwm.new_frequencies (set w.pwm.frequencies_update_required m false) 0
              (write_rate w.pwm.new_frequencies m w.dev) =
        first w.dev
        ∙ ap
            (λ j.
              rates_sent w.pwm.new_frequencies (set w.pwm.frequencies_update_required m false) 0
                (write_rate w.pwm.new_frequencies j w.dev))
            (omega arith) in
      let updated : pending_frequency a (armed_world a k t w)
          ≡ some (update_group a (armed_world a k t w) m) =
        unfold pending_frequency in
        if_then _ _ adv
        ∙ ap (Option.map (update_group a (armed_world a k t w))) (found ∙ ap some (omega arith)) in
      rw (rcio_pwm_update-armed a k t w on (ground arith), updated)
        (unfold after_frequency update_group rcio_pwm_update_frequency in
          (left, adv, noticed, refl, refl, refl, sent))

  settle :
      (ts : List ℕ) (w : World D) (news : List ℕ) (armtimeout : ℕ)
      → w.pwm.adv_timer_config_supported ≡ true
      → w.pwm.freq_update_noticed ≡ true
      → waiting w.pwm.frequencies_update_required ≡ length ts
      → w.pwm.armtimeout ≡ armtimeout
      → All (λ t. armed_at k t armtimeout ≡ true) ts
      → w.pwm.new_frequencies ≡ news
      → PwmInv w.pwm
      → let w' = updates ts w in
        ((i : ℕ) → get_or w'.pwm.frequencies_update_required i false ≡ false)
        × ((i : ℕ) → get_or w'.pwm.frequencies i 0 ≡ get_or news i 0)
        × (w'.pwm.values ≡ w.pwm.values)
        × (w'.dev ≡ rates_sent news w.pwm.frequencies_update_required 0 w.dev)
  unfolding updates
  settle [] w news armtimeout adv noticed all timeout on same inv = (
    none_waiting w.pwm.frequencies_update_required all,
    λ i.
        inv.settled i (none_waiting w.pwm.frequencies_update_required all i)
        ∙ ap (λ l. get_or l i 0) same,
    refl,
    sym (rates_sent-none news w.pwm.frequencies_update_required 0 w.dev all),
  )
  settle (t ∷ ts) w news armtimeout adv noticed all timeout on same inv =
      let q = group_step t (length ts) w adv noticed all (ap (armed_at k t) timeout ∙ on.0) in
      let rest =
        settle ts (rcio_pwm_update a k t w).1 news armtimeout q.1 q.2 q.0 (q.3 ∙ timeout) on.1
          (q.4 ∙ same) (rcio_pwm_update-PwmInv a k t w inv) in
      (
        rest.0,
        rest.1,
        rest.2 ∙ q.5,
        rest.3
            ∙ sym (
                ap (λ l. rates_sent l w.pwm.frequencies_update_required 0 w.dev) (sym same)
                ∙ q.6
                ∙ ap
                    (λ l.
                      rates_sent l (rcio_pwm_update a k t w).1.pwm.frequencies_update_required 0
                        (rcio_pwm_update a k t w).1.dev)
                    same),
      )

  -- With the advanced configuration, the invariant, `n` groups waiting and at least one, none of
  -- them noticed yet, and the outputs armed at each call, the first call and `n` more settle
  -- everything: no update is pending, every group is recorded at the frequency asked of it, the
  -- values to put out are the same as before, and what has been written to the device is 16 zeros
  -- for the outputs and then, for each group that waited and in the order of the groups, the
  -- frequency asked of it to the register of its rate.
  pub rcio_pwm_update_settles :
      (t : ℕ) (ts : List ℕ) (w : World D)
      → w.pwm.adv_timer_config_supported ≡ true
      → w.pwm.freq_update_noticed ≡ false
      → 0 < waiting w.pwm.frequencies_update_required
      → waiting w.pwm.frequencies_update_required ≡ length ts
      → All (λ s. armed_at k s w.pwm.armtimeout ≡ true) (t ∷ ts)
      → PwmInv w.pwm
      → let w' = updates (t ∷ ts) w in
        ((i : ℕ) → get_or w'.pwm.frequencies_update_required i false ≡ false)
        × ((i : ℕ) → get_or w'.pwm.frequencies i 0 ≡ get_or w.pwm.new_frequencies i 0)
        × (w'.pwm.values ≡ w.pwm.values)
        × (w'.dev
            ≡ rates_sent w.pwm.new_frequencies w.pwm.frequencies_update_required 0
                (register_set a w.dev px4io_page_direct_pwm 0 (replicate 16 0) 16).1)
  unfolding updates
  rcio_pwm_update_settles t ts w adv fresh some_wait all on inv =
      let e = rcio_pwm_update_clears a k t w on.0 some_updated fresh in
      let rest =
        settle ts (rcio_pwm_update a k t w).1 w.pwm.new_frequencies w.pwm.armtimeout
          (ap (λ x. x.1.pwm.adv_timer_config_supported) e ∙ adv)
          (ap (λ x. x.1.pwm.freq_update_noticed) e)
          (ap (λ x. waiting x.1.pwm.frequencies_update_required) e ∙ all)
          (ap (λ x. x.1.pwm.armtimeout) e) on.1 (ap (λ x. x.1.pwm.new_frequencies) e)
          (rcio_pwm_update-PwmInv a k t w inv) in
      (
        rest.0,
        rest.1,
        rest.2 ∙ ap (λ x. x.1.pwm.values) e,
        rest.3
            ∙ ap
                (λ x.
                  rates_sent w.pwm.new_frequencies x.1.pwm.frequencies_update_required 0 x.1.dev)
                e,
      )
    where
      some_updated : some_freq_updated w.pwm ≡ true
      some_updated =
          unfold some_freq_updated in
          rw ((inv.new_way adv).0, (inv.new_way adv).1)
            (any_required-waiting w.pwm.frequencies_update_required
              (waiting w.pwm.frequencies_update_required - 1) (omega arith))
