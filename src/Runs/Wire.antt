-- ===== src/Runs/Wire.antt =====
-- Messages of message.c and the byte order of lib/bendian.h at concrete inputs.
use frelay.Common.{
  ℕ, List, [], ◌∷◌, ◌++◌, length, slice, replicate, codes, refl, ◌≡◌, none, some, arith, returns,
  ◌>>=◌, ◌≤◌, ◌+◌,
}
use frelay.Bytes.{
  little_endian, big_endian, put16, put32, put64, get16, get32, get64, load, hton16, swap2,
  of_low_bytes,
}
use frelay.Bytes.Order.{words-roundtrip}
use frelay.Message.MsgType
use frelay.Message.MsgAttr
use frelay.Message.{
  MBuf, Env, Attr, str, mbuf_compose, mbuf_addattrib, mbuf_getnextattrib, mbuf_resetgetattrib,
  mbuf_to_error_response,
}
use frelay.Message.Header.{header}
use frelay.Message.Buffer.{IsWf, composed_header}
use frelay.Message.Append.{appended, mbuf_addattrib-appended}
use frelay.Message.Decode.{getnextattrib_in_bounds, read_attrs}
use frelay.Message.RoundTrip.{
  Carries, Call, attrs_size, add_all, read-compose, notice-IsAttr, mbuf_to_error_response-Carries,
  error_header, error_attrs,
}
use frelay.Status.{sc_forbidden}
use frelay.Server.Motd.{Motd, motd_get, motd_get-returns}

abbrev heap : Env
heap = record { heap = λ n. 170; clock = 1000 }

-- A 40-byte message: a PING request from 7 to 9.
abbrev ping : MBuf
ping = record {
  bsize = 40;
  boff = 0;
  b =
      0 ∷ 0 ∷ 0 ∷ 0 ∷ 0 ∷ 0 ∷ 0 ∷ 0 ∷ 0 ∷ 0 ∷ 0 ∷ 0 ∷ 0 ∷ 0 ∷ 0 ∷ 0 ∷ 0 ∷ 0 ∷ 0 ∷ 0 ∷ 0 ∷ 0 ∷ 0 ∷ 7
      ∷ 0 ∷ 0 ∷ 0 ∷ 0 ∷ 0 ∷ 0 ∷ 0 ∷ 9 ∷ 0 ∷ 0 ∷ 0 ∷ 0 ∷ 0 ∷ 0 ∷ 0 ∷ 5 ∷ [];
}

ping-IsWf : IsWf ping
ping-IsWf = record { sized = refl; least = omega arith; most = omega arith }

words-roundtrip_example :
    (get16 little_endian (put16 little_endian 258) ≡ 258)
    × (get32 little_endian (put32 little_endian 258) ≡ 258)
    × (get64 little_endian (put64 little_endian 258) ≡ 258)
    × (put16 little_endian 258 ≡ put16 big_endian 258)
    × (put32 little_endian 258 ≡ put32 big_endian 258)
    × (put64 little_endian 258 ≡ put64 big_endian 258)
words-roundtrip_example = words-roundtrip little_endian 258

mbuf_to_error_response-Carries_example :
    (q : MBuf) × (mbuf_to_error_response heap ping sc_forbidden ≡ returns q)
    × Carries q (error_header 1000 (header ping)) (error_attrs sc_forbidden)
mbuf_to_error_response-Carries_example =
    mbuf_to_error_response-Carries heap ping sc_forbidden ping-IsWf

mbuf_addattrib-appended_example :
    mbuf_addattrib heap ping MsgAttr.notice 3 (str (codes "hi"))
    ≡ returns (appended ping MsgAttr.notice (codes "hi" ++ 0 ∷ []))
mbuf_addattrib-appended_example =
    mbuf_addattrib-appended heap ping MsgAttr.notice 3 (str (codes "hi")) (codes "hi" ++ 0 ∷ [])
      ping-IsWf (omega arith) (notice-IsAttr (codes "hi")) (omega arith)

abbrev greeting : List Call
greeting = record { attype = MsgAttr.notice; len = 3; arg = str (codes "hi") } ∷ []

abbrev greeting_attrs : List (ℕ × List ℕ)
greeting_attrs = (MsgAttr.notice, codes "hi" ++ 0 ∷ []) ∷ []

read-compose_example :
    (q : MBuf) × ((mbuf_compose heap none MsgType.ping_req 7 9 5 >>= λ p. add_all heap p greeting)
      ≡ returns q)
    × (header q ≡ record (composed_header 1000 MsgType.ping_req 7 9 5) {
      paylen = attrs_size greeting_attrs;
    })
    × (read_attrs (length greeting_attrs + 1) (mbuf_resetgetattrib q) ≡ greeting_attrs)
read-compose_example =
    read-compose heap MsgType.ping_req 7 9 5 greeting greeting_attrs
      (refl, notice-IsAttr (codes "hi"), tt) (omega arith)

-- The header of `ping` and an attribute without a value.
abbrev with_ok : MBuf
with_ok = record {
  bsize = 48;
  boff = 40;
  b = ping.b ++ (0 ∷ MsgAttr.ok ∷ 0 ∷ 0 ∷ 0 ∷ 0 ∷ 0 ∷ 0 ∷ []);
}

abbrev ok_attr : Attr
ok_attr = record { at = MsgAttr.ok; al = 0; av = 48 }

with_ok-found : (mbuf_getnextattrib with_ok).0 ≡ some ok_attr
unfolding mbuf_getnextattrib get16 load hton16 swap2 of_low_bytes slice
with_ok-found = refl

getnextattrib_in_bounds_example :
    (ok_attr.av ≡ with_ok.boff + 8)
    × (ok_attr.av + ok_attr.al ≤ with_ok.bsize)
    × (ok_attr.av + ok_attr.al ≤ (mbuf_getnextattrib with_ok).1.boff)
    × ((mbuf_getnextattrib with_ok).1.bsize ≡ with_ok.bsize)
    × ((mbuf_getnextattrib with_ok).1.b ≡ with_ok.b)
getnextattrib_in_bounds_example = getnextattrib_in_bounds with_ok ok_attr with_ok-found

abbrev day : Motd
day = record { motd = replicate 4000 0; motd_sz = 4001 }

motd_get-returns_example :
    (q : Motd) × (motd_get day (codes "Hello\n" ∷ codes "World\n" ∷ []) ≡ returns q)
    × (length q.motd ≡ length day.motd)
motd_get-returns_example =
    motd_get-returns day (codes "Hello\n" ∷ codes "World\n" ∷ []) (omega arith)
