-- ===== src/Client/Wire.antt =====
-- cltmain.c: the messages of a file transfer as they are composed and read.
use frelay.Common.{ℕ, ◌+◌, ◌^◌, ◌≤◌, ◌<◌, ◌≡◌, refl, ap, arith}
use frelay.Common.{List, [], length, slice, some, none, true, leb, ◌==◌, take_all}
use frelay.Common.{returns}
use frelay.Bytes.{put64}
use frelay.Bytes.Order.{length-put64, get64-put64}
use frelay.Message.MsgAttr
use frelay.Message.{
  MBuf, ui64, blob, avtype_ui64, avtype_blob, avtype_of, attr_value, host, mbuf_resetgetattrib,
}
use frelay.Message.Append.{IsAttr}
use frelay.Message.Buffer.{composed_header, mbuf_compose-IsBare}
use frelay.Message.Cursor.{AtAttrs, Next}
use frelay.Message.Decode.{IsWire}
use frelay.Message.Header.{Header}
use frelay.Message.RoundTrip.{Carries, Call, Encode, attrs_size, IsBare-Carries, add_all-Carries}
use frelay.Client.{Sys}
use frelay.Client.Attributes.{wanted, word_at, word_or_zero, compose}

pub compose-Carries :
    (k : Sys) (type dstid trfid : ℕ) (calls : List Call) (attrs : List (ℕ × List ℕ))
    → Encode calls attrs
    → attrs_size attrs ≤ 65400
    → (q : MBuf) × (compose k type dstid trfid calls ≡ returns q)
      × Carries q (composed_header k.env.clock type 0 dstid trfid) attrs
unfolding compose
compose-Carries k type dstid trfid calls attrs w room =
    let h = composed_header k.env.clock type 0 dstid trfid in
    let (p, ep, bare) = mbuf_compose-IsBare k.env none type 0 dstid trfid tt in
    let (q, eq, c, n) =
      add_all-Carries k.env p h [] calls attrs (IsBare-Carries p h refl bare) w
        (omega (arith, bare.empty)) in
    (q, rw ep eq, c)

pub offerid-IsAttr : (v : ℕ) → IsAttr MsgAttr.offerid 8 (ui64 v) (put64 host v)
unfolding avtype_of attr_value
offerid-IsAttr v = record { kind = avtype_ui64; known = rw (length-put64 host v); encodes = refl }

pub offset-IsAttr : (v : ℕ) → IsAttr MsgAttr.offset 8 (ui64 v) (put64 host v)
unfolding avtype_of attr_value
offset-IsAttr v = record { kind = avtype_ui64; known = rw (length-put64 host v); encodes = refl }

pub size-IsAttr : (v : ℕ) → IsAttr MsgAttr.size 8 (ui64 v) (put64 host v)
unfolding avtype_of attr_value
size-IsAttr v = record { kind = avtype_ui64; known = rw (length-put64 host v); encodes = refl }

pub data-IsAttr : (bs : List ℕ) → IsAttr MsgAttr.data_ (length bs) (blob bs) bs
unfolding avtype_of attr_value
data-IsAttr bs = record {
  kind = avtype_blob;
  known = refl;
  encodes = ground (arith, take_all (length bs) bs (omega arith));
}

-- A message that is rewound stands at all its attributes.
pub Carries-AtAttrs :
    (p : MBuf) (h : Header) (attrs : List (ℕ × List ℕ))
    → Carries p h attrs
    → AtAttrs (mbuf_resetgetattrib p) attrs
unfolding mbuf_resetgetattrib
Carries-AtAttrs p h attrs c = record { sized = c.wf.sized; inside = c.wf.least; rest = c.payload }

pub wanted-Next :
    (p : MBuf) (t : ℕ) (v : List ℕ) (more : List (ℕ × List ℕ))
    → Next p t v more
    → wanted t p ≡ some (record { at = t; al = length v; av = p.boff + 8 })
unfolding wanted
wanted-Next p t v more n = let same : (t == t) ≡ true = ground arith in rw (n.found, same) refl

pub word-Next :
    (p : MBuf) (t n : ℕ) (more : List (ℕ × List ℕ))
    → Next p t (put64 host n) more
    → n < 2 ^ 64
    → word_at p (p.boff + 8) ≡ returns n
unfolding word_at
word-Next p t n more x small =
    let eight = length-put64 host n in
    let inside : leb (p.boff + 8 + 8) (length p.b) ≡ true = ground (arith, x.in_bounds, eight) in
    let value : slice (p.boff + 8) 8 p.b ≡ put64 host n = rw eight at x.value in
    rw (inside, value, get64-put64) (ap returns (omega arith))

pub word_or_zero-Next :
    (p : MBuf) (t n : ℕ) (more : List (ℕ × List ℕ))
    → Next p t (put64 host n) more
    → n < 2 ^ 64
    → word_or_zero t p ≡ returns n
unfolding word_or_zero
word_or_zero-Next p t n more x small =
    rw (wanted-Next p t (put64 host n) more x) (word-Next p t n more x small)

pub word-IsWire : (t n : ℕ) → t < 2 ^ 16 → IsWire (t, put64 host n)
word-IsWire t n h = (h, omega (arith, length-put64 host n))
