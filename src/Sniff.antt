-- ===== src/Sniff.antt =====
-- The packet sniffer of net/sniff.c: finding the TCP payload of a captured packet, and reading the
-- options of a TCP header. Packets are read on a little endian machine. A read behind the bytes that
-- were captured has no value in C: the result `outside`.
pub mod Options
pub mod RoundTrip
pub mod Aligned
pub mod Packet
mod Tests
use wee.Base.{
  ℕ, zero, suc, ◌+◌, ◌-◌, ◌*◌, ◌/◌, ◌%◌, ◌^◌, Bool, true, false, not, Option, none, some, List, [],
  ◌∷◌, drop, length, ltb, leb, ◌==◌, if◌then◌else◌, get_elem?,
}
use wee.Base.Memory.{Bytes, slice}
use wee.Base.Endian.{of_be, of_le}

-- `struct tcpopt`
pub record TcpOpt : Type 0 where
  pub rcv_tsval : ℕ
  pub rcv_tsecr : ℕ
  pub sack_ok : ℕ
  pub snd_wscale : ℕ
  pub mss_clamp : ℕ

-- what memset leaves
abbrev pub no_opt : TcpOpt
no_opt = record { rcv_tsval = 0; rcv_tsecr = 0; sack_ok = 0; snd_wscale = 0; mss_clamp = 0 }

-- the bytes of an option's kind that the source names
abbrev pub tcpopt_eol : ℕ
tcpopt_eol = 0

abbrev pub tcpopt_nop : ℕ
tcpopt_nop = 1

abbrev pub tcpopt_mss : ℕ
tcpopt_mss = 2

abbrev pub tcpopt_window : ℕ
tcpopt_window = 3

abbrev pub tcpopt_sack_perm : ℕ
tcpopt_sack_perm = 4

abbrev pub tcpopt_timestamp : ℕ
tcpopt_timestamp = 8

-- The end of a scan of the options, and of one round of its loop.
pub data Scan : Type 0 where
  finished : Bool → TcpOpt → Scan
  outside : Scan
  out_of_fuel : Scan

pub data Round : Type 0 where
  stop : Bool → TcpOpt → Round
  overread : Round
  again : Bytes → ℕ → TcpOpt → Round

-- what stands at `ptr`, n bytes of it
abbrev pub at_ptr : Bytes → ℕ → Option Bytes
at_ptr mem n = if leb n (length mem) then some (slice mem 0 n) else none

abbrev pub with_bytes : Option Bytes → (Bytes → TcpOpt) → Option TcpOpt
with_bytes none f = none
with_bytes (some d) f = some (f d)

-- the inner `switch`, with `ptr` behind the two bytes of kind and size
unfoldable pub option_value : ℕ → ℕ → Bytes → TcpOpt → Option TcpOpt
option_value opcode opsize ptr opt =
    if opcode == tcpopt_mss
    then (if opsize == 4
        then with_bytes (at_ptr ptr 2) (λ d. record opt { mss_clamp = of_be d })
        else some opt)
    else if opcode == tcpopt_window
    then (if opsize == 3
        then with_bytes (at_ptr ptr 1) (λ d. record opt { snd_wscale = of_be d })
        else some opt)
    else if opcode == tcpopt_timestamp
    then (if opsize == 10
        then with_bytes (at_ptr ptr 8)
            (λ d. record opt { rcv_tsval = of_be (slice d 0 4); rcv_tsecr = of_be (slice d 4 4) })
        else some opt)
    else if opcode == tcpopt_sack_perm
    then (if opsize == 2 then some (record opt { sack_ok = 1 }) else some opt)
    else some opt

abbrev pub next_round : Option TcpOpt → Bytes → ℕ → Round
next_round none mem length = overread
next_round (some opt) mem length = again mem length opt

-- the default case of the outer `switch`, with `ptr` behind the kind
unfoldable pub sized_option : ℕ → Bytes → ℕ → TcpOpt → Round
unfolding option_value
sized_option opcode [] length opt = overread
sized_option opcode (opsize ∷ ptr) length opt =
    if ltb opsize 2
    then stop false opt
    else if ltb length opsize
    then stop false opt
    else next_round (option_value opcode opsize ptr opt) (drop (opsize - 2) ptr) (length - opsize)

-- one round of `while (length > 0)`
unfoldable pub scan_round : Bytes → ℕ → TcpOpt → Round
unfolding sized_option
scan_round [] length opt = if length == 0 then stop true opt else overread
scan_round (opcode ∷ ptr) length opt =
    if length == 0
    then stop true opt
    else if opcode == tcpopt_eol
    then stop true opt
    else if opcode == tcpopt_nop
    then again ptr (length - 1) opt
    else sized_option opcode ptr length opt

-- what the loop makes of a round
abbrev pub go_on : (Bytes → ℕ → TcpOpt → Scan) → Round → Scan
go_on rest (stop b opt) = finished b opt
go_on rest overread = outside
go_on rest (again mem length opt) = rest mem length opt

-- the loop, with fuel
unfoldable pub scan_options : ℕ → Bytes → ℕ → TcpOpt → Scan
unfolding scan_round
scan_options zero mem length opt = out_of_fuel
scan_options (suc n) mem length opt = go_on (scan_options n) (scan_round mem length opt)

-- `tcp_parse_aligned_timestamp`: none where it reads outside, else whether it is one, and what it holds
unfoldable pub tcp_parse_aligned_timestamp : Bytes → TcpOpt → Option (Bool × TcpOpt)
tcp_parse_aligned_timestamp mem opt =
    if leb 4 (length mem)
    then (if of_be (slice mem 0 4)
          == tcpopt_nop * 2 ^ 24 + tcpopt_nop * 2 ^ 16 + tcpopt_timestamp * 2 ^ 8 + 10
        then (if leb 12 (length mem)
            then some (
              true,
              record opt {
                rcv_tsval = of_be (slice mem 4 4);
                rcv_tsecr = if of_be (slice mem 8 4) == 0 then 0 else of_be (slice mem 8 4);
              },
            )
            else none)
        else some (false, opt))
    else none

-- `tcp_parse_recv_options`: `th_off` has four bits, and `mem` is what stands behind the 20 bytes of
-- the header. A length that is negative in C, where the loop does not run, is 0.
unfoldable pub tcp_parse_recv_options : ℕ → ℕ → Bytes → TcpOpt → Scan
unfolding tcp_parse_aligned_timestamp
tcp_parse_recv_options fuel th_off mem opt =
    let scan = scan_options fuel mem (th_off * 4 - 20) opt in
    if th_off == 5
    then finished false opt
    else if th_off == 8
    then elim (tcp_parse_aligned_timestamp mem opt) [
      | none ↦ outside
      | some (true, opt') ↦ finished true opt'
      | some (false, _) ↦ scan
    ]
    else scan

-- IPV4_ADDR(a, b, c, d)
abbrev pub ipv4_addr : ℕ → ℕ → ℕ → ℕ → ℕ
ipv4_addr a b c d = a * 2 ^ 24 + b * 2 ^ 16 + c * 2 ^ 8 + d

-- IPV4_IS_BROADCAST_ADDR
unfoldable pub is_broadcast : ℕ → Bool
is_broadcast addr = addr == ipv4_addr 255 255 255 255

-- IPV4_IS_MULTICAST_ADDR: the mask keeps the highest four bits of a uint32_t
unfoldable pub is_multicast : ℕ → Bool
is_multicast addr = addr / 2 ^ 28 % 16 * 2 ^ 28 == ipv4_addr 224 0 0 0

-- DLT_NULL, DLT_EN10MB, DLT_RAW and DLT_LINUX_SLL, and any other
pub data Link : Type 0 where
  dlt_null : Link
  dlt_en10mb : Link
  dlt_raw : Link
  dlt_linux_sll : Link
  unknown : Link

-- `dl_hdr_offset` as `tcpsniff` sets it; none where it refuses
unfoldable pub dl_hdr_offset : Link → Option ℕ
dl_hdr_offset dlt_null = some 4
dl_hdr_offset dlt_raw = some 0
dl_hdr_offset dlt_en10mb = some 14
dl_hdr_offset dlt_linux_sll = some 16
dl_hdr_offset unknown = none

-- ETHERTYPE_IP
abbrev pub ethertype_ip : ℕ
ethertype_ip = 0x0800

-- the `protocol` of a packet; PF_INET is 2
unfoldable pub protocol : Link → Bytes → ℕ
protocol dlt_null pkt = if not (of_le (slice pkt 0 4) == 2) then 0 else ethertype_ip
protocol dlt_en10mb pkt = of_be (slice pkt 12 2)
protocol dlt_linux_sll pkt = of_be (slice pkt 14 2)
protocol _ pkt = ethertype_ip

-- What `pcap_pkt_handler` does with a packet: the call of `pkt_handler` is its arguments, with the
-- headers as offsets into the packet, and `cut_off` is a scan of options outside of it.
pub data Handled : Type 0 where
  ignored : Handled
  payload_assert : Handled
  cut_off : Handled
  deliver : (ip_hdr tcp_hdr : ℕ) → TcpOpt → (payload payload_sz : ℕ) → Handled

-- the options after a scan, whatever it returned
abbrev pub after_scan : Scan → (TcpOpt → Handled) → Handled
after_scan (finished b opt) k = k opt
after_scan outside k = cut_off
after_scan out_of_fuel k = cut_off

-- `ip_hl * 4` and `th_off * 4` of the headers at an offset
unfoldable pub ip_hdr_sz : Bytes → ℕ → ℕ
ip_hdr_sz pkt ip = of_be (slice pkt ip 1) % 16 * 4

unfoldable pub tcp_hdr_sz : Bytes → ℕ → ℕ
tcp_hdr_sz pkt tcp = of_be (slice pkt (tcp + 12) 1) / 16 * 4

-- `pcap_pkt_handler` behind its tests: the packet is TCP over IPv4
unfoldable pub deliver_tcp : Bytes → ℕ → ℕ → Handled
deliver_tcp pkt caplen ip =
    let tcp = ip + ip_hdr_sz pkt ip in
    let total = tcp + tcp_hdr_sz pkt tcp in
    let opts =
      if tcp_hdr_sz pkt tcp == 20
      then finished false no_opt
      else tcp_parse_recv_options 61 (tcp_hdr_sz pkt tcp / 4) (drop (tcp + 20) pkt) no_opt in
    after_scan opts (λ opt.
      if ltb caplen total then payload_assert else deliver ip tcp opt total (caplen - total))

-- `pcap_pkt_handler`; `pkt` is what was captured. A field that was cut off has no value in C, and
-- the bytes that are left of it here.
unfoldable pub pcap_pkt_handler : Link → ℕ → Bytes → ℕ → Handled
pcap_pkt_handler link ip pkt caplen =
    if not (protocol link pkt == ethertype_ip)
    then ignored
    else if is_broadcast (of_le (slice pkt (ip + 16) 4))
    then ignored
    else if is_multicast (of_le (slice pkt (ip + 16) 4))
    then ignored
    else if not (of_be (slice pkt (ip + 9) 1) == 6)
    then ignored
    else deliver_tcp pkt caplen ip
