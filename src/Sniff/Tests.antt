-- ===== src/Sniff/Tests.antt =====
-- Runs of net/sniff.c on small packets, and the theorems about it.
use wee.Base.{◌≡◌, refl, Bool, true, List, [], ◌∷◌, ◌++◌, length, replicate, arith}
use wee.Base.Memory.{Bytes, slice}
use wee.Base.Endian.{be_bytes, of_be, of_le}
use wee.Sniff.{
  TcpOpt, no_opt, finished, outside, scan_options, tcp_parse_recv_options, dlt_raw, protocol,
  deliver, pcap_pkt_handler, is_broadcast, is_multicast,
}
use wee.Sniff.Options.{scan_options-finished}
use wee.Sniff.RoundTrip.{
  Opt, nop, mss, sack_perm, window, encode_all, noted_all, scan_options-encode_all,
}
use wee.Sniff.Aligned.{aligned-eq-loop}
use wee.Sniff.Packet.{IsTcp, packet, pcap_pkt_handler-deliver}

-- the options of a SYN
abbrev syn : List Opt
syn = mss 1460 ∷ sack_perm ∷ nop ∷ window 7 ∷ nop ∷ nop ∷ []

scan_options-finished_example :
    (done : Bool) × (opt : TcpOpt) × (scan_options 4 (5 ∷ 9 ∷ 0 ∷ 2 ∷ []) 3 no_opt
      ≡ finished done opt)
scan_options-finished_example =
    scan_options-finished 4 3 (5 ∷ 9 ∷ 0 ∷ 2 ∷ []) no_opt (omega arith) (omega arith)

-- The last byte is a kind: its size is read behind the header.
kind_at_end : scan_options 4 (1 ∷ 2 ∷ []) 2 no_opt ≡ outside
unfolding scan_options
kind_at_end = refl

scan_options-encode_all_example :
    scan_options 14 (encode_all syn ++ (0 ∷ [])) (length (encode_all syn)) no_opt
    ≡ finished true (noted_all syn no_opt)
unfolding be_bytes
scan_options-encode_all_example =
    scan_options-encode_all syn 14 (0 ∷ []) no_opt (omega arith) (omega arith)

aligned-eq-loop_example :
    tcp_parse_recv_options 13 8 (1 ∷ 1 ∷ 8 ∷ 10 ∷ replicate 8 7) no_opt
    ≡ scan_options 13 (1 ∷ 1 ∷ 8 ∷ 10 ∷ replicate 8 7) 12 no_opt
aligned-eq-loop_example =
    aligned-eq-loop 13 (1 ∷ 1 ∷ 8 ∷ 10 ∷ replicate 8 7) no_opt (omega arith) (omega arith)
      (omega arith)

-- an IPv4 header to 10.0.0.9, and a TCP header with three words of options
abbrev ip_hdr : Bytes
ip_hdr = 69 ∷ 0 ∷ 0 ∷ 54 ∷ 0 ∷ 0 ∷ 0 ∷ 0 ∷ 64 ∷ 6 ∷ 0 ∷ 0 ∷ 10 ∷ 0 ∷ 0 ∷ 1 ∷ 10 ∷ 0 ∷ 0 ∷ 9 ∷ []

abbrev tcp_hdr : Bytes
tcp_hdr = replicate 12 0 ++ (128 ∷ 2 ∷ replicate 6 0)

headers_IsTcp : IsTcp ip_hdr tcp_hdr syn
unfolding slice of_be of_le be_bytes
headers_IsTcp = record {
  ip_length = refl;
  ip_whole = omega arith;
  ip_protocol = refl;
  tcp_whole = refl;
  tcp_length = refl;
  tcp_small = omega arith;
  options = omega arith;
}

pcap_pkt_handler-deliver_example :
    pcap_pkt_handler dlt_raw 0
      (packet [] ip_hdr tcp_hdr syn (104 ∷ 105 ∷ []))
      (length (packet [] ip_hdr tcp_hdr syn (104 ∷ 105 ∷ [])))
    ≡ deliver 0 20 (noted_all syn no_opt) 52 2
unfolding protocol is_broadcast is_multicast of_le slice be_bytes
pcap_pkt_handler-deliver_example =
    pcap_pkt_handler-deliver [] (104 ∷ 105 ∷ []) headers_IsTcp dlt_raw refl refl refl (omega arith)
