-- ===== src/Dubbo/ResponseTests.antt =====
-- The theorems about the decoding of responses in dubbo_client/dubbo_codec.c, at small packets.
use wee.Base.{[], ◌∷◌, arith}
use wee.Base.Memory.{Bytes}
use wee.Base.Endian.{be_bytes, le_bytes}
use wee.Buffer.Chain.{Holds}
use wee.Samples.{holding, holding-Holds}
use wee.Dubbo.Codec.{DubboHdr}
use wee.Dubbo.Codec.Header.{packet}

abbrev pub ok_hdr : DubboHdr
ok_hdr = record { flag = 2; status = 20; body_sz = 1; reqid = 7 }

-- a null result, and a byte of the next packet
abbrev null_reply : Bytes
null_reply = packet ok_hdr (0x92 ∷ 0xda ∷ [])

-- the header of a packet whose body has not come yet
abbrev only_header : Bytes
only_header = packet ok_hdr []

only_header-Holds : Holds (holding only_header) only_header
unfolding be_bytes le_bytes
only_header-Holds = holding-Holds only_header (omega arith)
