-- ===== src/Tests/Coprocessor.antt =====
-- A coprocessor that answers by the protocol: registers, and the last request.
use rcio_dkms.Base.{
  ℕ, ◌+◌, ◌-◌, ◌%◌, ◌^◌, ◌≤◌, ◌≡◌, ◌≢◌, refl, ap, ◌∙◌, true, false, pos, List, [], arith, ◌==◌,
  Bool, ◌&&◌, ◌||◌, leb, ltb, if◌then◌else◌, length, get_or, take, replicate, All, tabulate,
  length-tabulate, All-tabulate, tabulate-get_or, tabulate_ext, take-tabulate, All-take, All-get_or,
  if_cases,
}
use rcio_dkms.Protocol.Packet.{
  IoPacket, IsPacket, IsByte, IsWord, packet_size, pkt_max_regs, pkt_code_read, pkt_code_write,
  pkt_code_error, pkt_count, pkt_code, bytes, of_bytes, of_bytes-bytes, length-bytes, bytes-IsByte,
}
use rcio_dkms.Spi.{Link, seal}
use rcio_dkms.Spi.Bus.{SpiBus}
use rcio_dkms.Spi.Detects.{sealed-IsPacket}
use rcio_dkms.Spi.Server.{Registers, Serves, get_registers, put_registers, address_in}

-- The memory behind the registers, and the last request.
pub record Coprocessor : Type 0 where
  pub memory : ℕ → ℕ
  pub request : IoPacket

abbrev pub registers_of : Coprocessor → Registers
registers_of d x = d.memory x % 2 ^ 16

abbrev pub answer_of : (ℕ → ℕ) → IoPacket → IoPacket
answer_of memory p =
    if pkt_code p == pkt_code_write
    then record p { count_code = 0 }
    else record p { regs = tabulate 32 (λ i. memory (address_in p + i) % 2 ^ 16) }

abbrev pub stored : (ℕ → ℕ) → IoPacket → ℕ → ℕ
stored memory p =
    if pkt_code p == pkt_code_write
    then put_registers memory (address_in p) (take (pkt_count p) p.regs)
    else memory

answer_of-IsPacket : (memory : ℕ → ℕ) (p : IoPacket) → IsPacket p → IsPacket (answer_of memory p)
answer_of-IsPacket memory p v =
    if_cases IsPacket (pkt_code p == pkt_code_write) (record p { count_code = 0 })
      (record p { regs = tabulate 32 (λ i. memory (address_in p + i) % 2 ^ 16) })
      (λ _. record {
        count_code_byte = omega arith;
        crc_byte = v.crc_byte;
        page_byte = v.page_byte;
        offset_byte = v.offset_byte;
        regs_words = v.regs_words;
        regs_all = v.regs_all;
      })
      (λ _. record {
        count_code_byte = v.count_code_byte;
        crc_byte = v.crc_byte;
        page_byte = v.page_byte;
        offset_byte = v.offset_byte;
        regs_words =
            All-tabulate IsWord 32 (λ i. memory (address_in p + i) % 2 ^ 16) (λ i. omega arith);
        regs_all = length-tabulate 32 (λ i. memory (address_in p + i) % 2 ^ 16);
      })

-- The bytes `raw`, as many as are asked for.
abbrev pub as_bytes : ℕ → List ℕ → List ℕ
as_bytes n raw = tabulate n (λ i. get_or raw i 0 % 256)

as_bytes_lem : (n : ℕ) (raw : List ℕ) → length raw ≡ n → All IsByte raw → as_bytes n raw ≡ raw
as_bytes_lem n raw full small =
    tabulate_ext n (λ i. get_or raw i 0 % 256) (λ i. get_or raw i 0)
      (λ i h. omega (arith, All-get_or IsByte raw i 0 (omega arith) small))
    ∙ tabulate-get_or n raw 0 full

abbrev pub coprocessor : SpiBus Coprocessor
coprocessor = record {
  write = λ d sent. (pos 0, record d { request = of_bytes sent });
  read = λ d n. (
    pos 0,
    as_bytes n (bytes (seal [] (answer_of d.memory d.request))),
    record d { memory = stored d.memory d.request },
  );
  read_full = λ d n h. length-tabulate n _;
  read_bytes = λ d n h. All-tabulate IsByte n _ (λ i. omega arith);
}

pub exchanged :
    (d : Coprocessor) (p : IoPacket)
    → IsPacket p
    → as_bytes packet_size (bytes (seal [] (answer_of d.memory (of_bytes (bytes p)))))
      ≡ bytes (seal [] (answer_of d.memory p))
exchanged d p v =
    let sound = sealed-IsPacket [] tt (answer_of-IsPacket d.memory p v) in
    ap (λ q. as_bytes packet_size (bytes (seal [] (answer_of d.memory q)))) (of_bytes-bytes p)
    ∙ as_bytes_lem packet_size _ (length-bytes sound) (bytes-IsByte sound)

read_code : (p : IoPacket) → pkt_code p ≡ pkt_code_read → (pkt_code p == pkt_code_write) ≡ false
read_code p e = ground arith

-- The answer to a read, and the memory after it.
pub read_answered :
    (memory : ℕ → ℕ) (p : IoPacket)
    → pkt_code p ≡ pkt_code_read
    → pkt_count p ≤ pkt_max_regs
    → let q = answer_of memory p in
      (pkt_count q ≡ pkt_count p)
      × (pkt_code q ≢ pkt_code_error)
      × (take (pkt_count p) q.regs
          ≡ get_registers (λ x. memory x % 2 ^ 16) (address_in p) (pkt_count p))
      × (stored memory p ≡ memory)
read_answered memory p code few = rw (read_code p code) (
  unfold pkt_count in refl,
  λ e. (unfold pkt_code in omega (arith, code, e)),
  take-tabulate (pkt_count p) 32 (λ i. memory (address_in p + i) % 2 ^ 16) few,
  refl,
)

-- The words written, read as words, are the same.
put_words :
    (memory : ℕ → ℕ) (address : ℕ) (values : List ℕ)
    → All IsWord values
    → (x : ℕ)
    → put_registers memory address values x % 2 ^ 16
      ≡ put_registers (λ y. memory y % 2 ^ 16) address values x
put_words memory address values words x = ground (arith, All-get_or IsWord values (x - address) 0)

pub write_answered :
    (memory : ℕ → ℕ) (p : IoPacket)
    → IsPacket p
    → pkt_code p ≡ pkt_code_write
    → (pkt_code (answer_of memory p) ≢ pkt_code_error)
      × ((λ x. stored memory p x % 2 ^ 16)
          ≡ put_registers (λ x. memory x % 2 ^ 16) (address_in p) (take (pkt_count p) p.regs))
write_answered memory p v code =
    let is_write : (pkt_code p == pkt_code_write) ≡ true = ground arith in
    rw is_write (
      λ e. (unfold pkt_code in omega (arith, e)),
      λ i x.
          put_words memory (address_in p) (take (pkt_count p) p.regs)
            (All-take IsWord (pkt_count p) p.regs v.regs_words) x i,
    )

-- The pages 0x10 and 0x36, of the registers that are claimed to store and return; the setup page
-- with its command is not among them.
abbrev pub data_page : ℕ → Bool
data_page x = leb 0x1000 x && ltb x 0x1100 || leb 0x3600 x && ltb x 0x3700

abbrev pub server : Serves coprocessor []
server = record {
  stores = data_page;
  returns = data_page;
  registers = registers_of;
  answer = λ d p. answer_of d.memory p;
  exchange = λ d p v. (refl, refl, exchanged d p v);
  read_answer = λ d p v sound code few range.
      let found = read_answered d.memory p code few in
      (
        found.0,
        found.1,
        found.2,
        ap (λ q x. stored d.memory q x % 2 ^ 16) (of_bytes-bytes p)
            ∙ ap (λ m x. m x % 2 ^ 16) found.3,
      );
  write_answer = λ d p v sound code few range.
      let found = write_answered d.memory p v code in
      (found.0, ap (λ q x. stored d.memory q x % 2 ^ 16) (of_bytes-bytes p) ∙ found.1);
}

abbrev pub blank : IoPacket
blank = record { count_code = 0; crc = 0; page = 0; offset = 0; regs = replicate 32 0 }

pub blank-IsPacket : IsPacket blank
blank-IsPacket = record {
  count_code_byte = omega arith;
  crc_byte = omega arith;
  page_byte = omega arith;
  offset_byte = omega arith;
  regs_words = omega arith;
  regs_all = refl;
}

-- Register `x` holds `x`.
abbrev pub link : Link Coprocessor
link = record { bus = record { memory = λ x. x; request = blank }; buffer = blank }
