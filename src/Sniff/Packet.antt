-- ===== src/Sniff/Packet.antt =====
-- `pcap_pkt_handler` of net/sniff.c on whole packets.
use wee.Base.{
  ℕ, ◌+◌, ◌-◌, ◌*◌, ◌/◌, ◌%◌, ◌≤◌, ◌<◌, ◌≡◌, ◌≢◌, refl, ap, ap₂, sym, ◌∙◌, true, false, List, [],
  ◌∷◌, ◌++◌, All, drop, length, length-append, append_assoc, ◌==◌, if◌then◌else◌, arith,
}
use native.Mathlib.Decide.{ℕ_discrete}
use wee.Base.Memory.{Bytes, slice, slice-inside, drop-inside}
use wee.Base.Word.{IsByte}
use wee.Base.Endian.{of_be, of_le}
use wee.Sniff.{
  TcpOpt, no_opt, finished, tcp_parse_recv_options, scan_options, Link, protocol, ethertype_ip,
  Handled, ignored, deliver, after_scan, ip_hdr_sz, tcp_hdr_sz, deliver_tcp, is_broadcast,
  is_multicast, pcap_pkt_handler,
}
use wee.Sniff.RoundTrip.{
  Opt, IsOpt, encode, encode_all, length-encode_pos, noted_all, scan_options-encode_all,
}
use wee.Sniff.Aligned.{aligned-eq-loop}

generic :
    (k : ℕ) (mem : Bytes) (t : TcpOpt)
    → k ≢ 5
    → k ≢ 8
    → tcp_parse_recv_options 61 k mem t ≡ scan_options 61 mem (k * 4 - 20) t
unfolding tcp_parse_recv_options
generic k mem t ne other = ground arith

-- The options of a header of k words are read whichever way is taken.
recv-encode_all :
    (os : List Opt) (k : ℕ) (rest : Bytes) (t : TcpOpt)
    → All IsOpt os
    → All IsByte (encode_all os ++ rest)
    → k * 4 ≡ 20 + length (encode_all os)
    → k ≤ 15
    → k ≢ 5
    → tcp_parse_recv_options 61 k (encode_all os ++ rest) t ≡ finished true (noted_all os t)
recv-encode_all os k rest t h bytes e small ne = elim (ℕ_discrete k 8) [
  | yes eight ↦
      ap (λ n. tcp_parse_recv_options 61 n (encode_all os ++ rest) t) eight
      ∙ aligned-eq-loop 61 (encode_all os ++ rest) t bytes
          (omega (arith, length-append (encode_all os) rest)) (omega arith)
      ∙ ap (λ n. scan_options 61 (encode_all os ++ rest) n t) (omega arith)
      ∙ scan_options-encode_all os 61 rest t h (omega arith)
  | no other ↦
      generic k (encode_all os ++ rest) t ne other
      ∙ ap (λ n. scan_options 61 (encode_all os ++ rest) n t) (omega arith)
      ∙ scan_options-encode_all os 61 rest t h (omega arith)
]

-- The options of a header of w words, as the handler comes by them.
opts_found :
    (os : List Opt) (w : ℕ) (rest : Bytes) (k : TcpOpt → Handled)
    → All IsOpt os
    → All IsByte (encode_all os ++ rest)
    → w * 4 ≡ 20 + length (encode_all os)
    → w ≤ 15
    → after_scan
        (if 20 + length (encode_all os) == 20
          then finished false no_opt
          else tcp_parse_recv_options 61
              ((20 + length (encode_all os)) / 4)
              (encode_all os ++ rest)
              no_opt)
        k
      ≡ k (noted_all os no_opt)
opts_found [] w rest k h bytes e small = refl
opts_found (o ∷ os) w rest k h bytes e small = ground (
  arith,
  some_option,
  ap (λ n. tcp_parse_recv_options 61 n (encode_all (o ∷ os) ++ rest) no_opt) words,
  recv-encode_all (o ∷ os) w rest no_opt h bytes e small (omega (arith, some_option)),
)
  where
    some_option : 0 < length (encode_all (o ∷ os))
    some_option = omega (arith, length-append (encode o) (encode_all os), length-encode_pos o)

    words : (20 + length (encode_all (o ∷ os))) / 4 ≡ w
    words = omega arith

-- A TCP packet: the link header, the IPv4 header, the first 20 bytes of the TCP header, its options and
-- the payload, with the length fields right.
pub record IsTcp (ip tcp : Bytes) (os : List Opt) : Type 0 where
  pub ip_length : of_be (slice ip 0 1) % 16 * 4 ≡ length ip
  pub ip_whole : 20 ≤ length ip
  pub ip_protocol : of_be (slice ip 9 1) ≡ 6
  pub tcp_whole : length tcp ≡ 20
  pub tcp_length : of_be (slice tcp 12 1) / 16 * 4 ≡ 20 + length (encode_all os)
  pub tcp_small : of_be (slice tcp 12 1) < 256
  pub options : All IsOpt os

abbrev pub packet : Bytes → Bytes → Bytes → List Opt → Bytes → Bytes
packet link ip tcp os payload = link ++ (ip ++ (tcp ++ (encode_all os ++ payload)))

module _ {ip tcp : Bytes} {os : List Opt} (pre payload : Bytes) (h : IsTcp ip tcp os) where
  abbrev whole : Bytes
  whole = packet pre ip tcp os payload

  abbrev headers : ℕ
  headers = length pre + length ip + 20 + length (encode_all os)

  length-packet : length whole ≡ headers + length payload
  length-packet = omega (
    arith,
    length-append pre (ip ++ (tcp ++ (encode_all os ++ payload))),
    length-append ip (tcp ++ (encode_all os ++ payload)),
    length-append tcp (encode_all os ++ payload),
    length-append (encode_all os) payload,
    h.tcp_whole,
  )

  offset : (i : ℕ) → length pre + length ip + i ≡ length (pre ++ ip) + i
  offset i = omega (arith, length-append pre ip)

  ip_field : (i n : ℕ) → i + n ≤ 20 → slice whole (length pre + i) n ≡ slice ip i n
  ip_field i n le =
      slice-inside pre ip (tcp ++ (encode_all os ++ payload)) i n (omega (arith, h.ip_whole))

  regrouped : whole ≡ (pre ++ ip) ++ (tcp ++ (encode_all os ++ payload))
  regrouped = sym (append_assoc pre ip (tcp ++ (encode_all os ++ payload)))

  tcp_field : (i n : ℕ) → i + n ≤ 20 → slice whole (length pre + length ip + i) n ≡ slice tcp i n
  tcp_field i n le =
      ap₂ (λ w k. slice w k n) regrouped (offset i)
      ∙ slice-inside (pre ++ ip) tcp (encode_all os ++ payload) i n (omega (arith, h.tcp_whole))

  behind_tcp : drop (length pre + length ip + 20) whole ≡ encode_all os ++ payload
  behind_tcp =
      ap₂ (λ w k. drop k w) regrouped (offset 20)
      ∙ drop-inside (pre ++ ip) tcp (encode_all os ++ payload) 20 (sym h.tcp_whole)

  ip_hdr_sz-packet : ip_hdr_sz whole (length pre) ≡ length ip
  unfolding ip_hdr_sz
  ip_hdr_sz-packet =
      ap (λ k. of_be (slice whole k 1) % 16 * 4) (omega arith)
      ∙ ap (λ d. of_be d % 16 * 4) (ip_field 0 1 (omega arith))
      ∙ h.ip_length

  tcp_hdr_sz-packet : tcp_hdr_sz whole (length pre + length ip) ≡ 20 + length (encode_all os)
  unfolding tcp_hdr_sz
  tcp_hdr_sz-packet = ap (λ d. of_be d / 16 * 4) (tcp_field 12 1 (omega arith)) ∙ h.tcp_length

  deliver_tcp-packet :
      All IsByte (encode_all os ++ payload)
      → deliver_tcp whole (length whole) (length pre)
        ≡ deliver
            (length pre)
            (length pre + length ip)
            (noted_all os no_opt)
            headers
            (length payload)
  unfolding deliver_tcp
  deliver_tcp-packet bytes =
      rw (ip_hdr_sz-packet, tcp_hdr_sz-packet, behind_tcp, length-packet)
        (opts_found os (of_be (slice tcp 12 1) / 16) payload _ h.options bytes h.tcp_length
            (omega (arith, h.tcp_small))
          ∙ ground arith)

  -- `pcap_pkt_handler` hands over a whole TCP packet over IPv4, under each of the links: where its
  -- headers are, the options that were sent, and as payload all that stands behind the headers. The
  -- destination is neither what the source takes for a broadcast nor for a multicast address.
  pub pcap_pkt_handler-deliver :
      (link : Link)
      → protocol link whole ≡ ethertype_ip
      → is_broadcast (of_le (slice ip 16 4)) ≡ false
      → is_multicast (of_le (slice ip 16 4)) ≡ false
      → All IsByte (encode_all os ++ payload)
      → pcap_pkt_handler link (length pre) whole (length whole)
        ≡ deliver
            (length pre)
            (length pre + length ip)
            (noted_all os no_opt)
            headers
            (length payload)
  unfolding pcap_pkt_handler
  pcap_pkt_handler-deliver link ipv4 broad multi bytes =
      rw (ip_field 16 4 (omega arith), ip_field 9 1 (omega arith))
        (ground (arith, ipv4, broad, multi, h.ip_protocol, deliver_tcp-packet bytes))

-- The multicast test looks at the last byte of an address, since the address is in network order.
last_byte_multicast :
    (a b c d : ℕ)
    → IsByte a
    → IsByte b
    → IsByte c
    → IsByte d
    → is_multicast (of_le (a ∷ b ∷ c ∷ d ∷ [])) ≡ (d / 16 == 14)
unfolding is_multicast of_le
last_byte_multicast a b c d ha hb hc hd = ground arith

-- The packets to an address that ends in 224 to 239 are ignored, whatever they are, and those to a
-- multicast address a.b.c.d are not taken for multicast unless d is in that range too.
pub multicast_by_last_byte :
    (link : Link) (pkt : Bytes) (ip caplen a b c d : ℕ)
    → All IsByte (a ∷ b ∷ c ∷ d ∷ [])
    → slice pkt (ip + 16) 4 ≡ a ∷ b ∷ c ∷ d ∷ []
    → (224 ≤ d → d < 240 → pcap_pkt_handler link ip pkt caplen ≡ ignored)
      × (d < 224 → is_multicast (of_le (slice pkt (ip + 16) 4)) ≡ false)
unfolding pcap_pkt_handler
multicast_by_last_byte link pkt ip caplen a b c d (ha, (hb, (hc, (hd, _)))) e = (
  λ low high. ground (arith, ap of_le e, last_byte_multicast a b c d ha hb hc hd),
  λ low. rw e (last_byte_multicast a b c d ha hb hc hd ∙ ground arith),
)
