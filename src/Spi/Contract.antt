-- ===== src/Spi/Contract.antt =====
-- rcio_spi_read and rcio_spi_write as the two calls of an adapter.
use rcio_dkms.Base.{
  ℕ, ◌≤◌, ◌≡◌, ◌⊎◌, inl, inr, true, pos, is_neg, List, ◌++◌, length, take, drop, All, arith,
  length-take-drop, All-append, All-take, All-drop,
}
use rcio_dkms.Adapter.{Adapter}
use rcio_dkms.Protocol.Packet.{pkt_max_regs, packet_size, bytes, IsWord, of_bytes_regs}
use rcio_dkms.Spi.{Link, seal, read_request, wait_complete, rcio_spi_read, rcio_spi_write}
use rcio_dkms.Spi.Bus.{SpiBus}

module _ {D : Type 0} (spi : SpiBus D) (past : List ℕ) where
  -- A write returns the count or an error number, whatever the bus and the coprocessor do.
  pub rcio_spi_write_result :
      (l : Link D) (address : ℕ) (values : List ℕ) (n : ℕ)
      → let result = (rcio_spi_write spi past l address values n).0 in
        (result ≡ pos n) ⊎ (is_neg result ≡ true)
  unfolding rcio_spi_write wait_complete
  rcio_spi_write_result l address values n = ground arith

  -- A read returns the count, or an error number with the caller's buffer as it was, whatever the
  -- bus and the coprocessor do.
  pub rcio_spi_read_result :
      (l : Link D) (address : ℕ) (values : List ℕ) (n : ℕ)
      → let (result, after, l') = rcio_spi_read spi past l address values n in
        (result ≡ pos n) ⊎ ((is_neg result ≡ true) × (after ≡ values))
  unfolding rcio_spi_read wait_complete
  rcio_spi_read_result l address values n = ground arith

  -- The caller's buffer is as it was, or starts with `n` registers of the reply.
  copies :
      (l : Link D) (address : ℕ) (values : List ℕ) (n : ℕ)
      → let (result, after, l') = rcio_spi_read spi past l address values n in
        (after ≡ values)
        ⊎ ((n ≤ pkt_max_regs)
            × (length l'.buffer.regs ≡ pkt_max_regs)
            × All IsWord l'.buffer.regs
            × (after ≡ take n l'.buffer.regs ++ drop n values))
  unfolding rcio_spi_read wait_complete
  copies l address values n = ground (
    arith,
    spi.read_full bus1 packet_size,
    spi.read_bytes bus1 packet_size,
    of_bytes_regs (spi.read bus1 packet_size).1,
  )
    where
      bus1 : D
      bus1 = (spi.write l.bus (bytes (seal past (read_request address n l.buffer)))).1

  pub length-rcio_spi_read :
      (l : Link D) (address : ℕ) (values : List ℕ) (n : ℕ)
      → n ≤ length values
      → length (rcio_spi_read spi past l address values n).1 ≡ length values
  length-rcio_spi_read l address values n h = elim (copies l address values n) [
    | inl same ↦ rw same
    | inr (few, all, words, copied) ↦ rw copied (length-take-drop n _ values (rw all few) h)
  ]

  pub rcio_spi_read_words :
      (l : Link D) (address : ℕ) (values : List ℕ) (n : ℕ)
      → All IsWord values
      → All IsWord (rcio_spi_read spi past l address values n).1
  rcio_spi_read_words l address values n h = elim (copies l address values n) [
    | inl same ↦ rw same h
    | inr (few, all, words, copied) ↦
        rw copied (All-append IsWord _ _ (All-take IsWord n _ words) (All-drop IsWord n values h))
  ]

  -- `st.read = rcio_spi_read; st.write = rcio_spi_write;`
  abbrev pub spi_adapter : Adapter (Link D)
  spi_adapter = record {
    read = rcio_spi_read spi past;
    write = rcio_spi_write spi past;
    read_result = rcio_spi_read_result;
    read_length = length-rcio_spi_read;
    read_words = rcio_spi_read_words;
    write_result = rcio_spi_write_result;
  }
