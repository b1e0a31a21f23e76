-- ===== src/Message.antt =====
-- Messages, message.h and message.c: the buffer with its header and attributes.
-- Sizes are those of objects in memory, far below the range of `size_t`. The link `next` of a
-- queued buffer is the order of a list of buffers.
pub mod MsgType
pub mod MsgAttr
pub mod Header
pub mod Buffer
pub mod Append
pub mod Decode
pub mod Class
pub mod Names
pub mod Cursor
pub mod RoundTrip
use Prim.Native.Nat.{bit_and, bit_or}
use mathlib.Core.Bool.{◌&&◌}
use frelay.Common.{ℕ, zero, suc, ◌+◌, ◌-◌, ◌*◌, ◌/◌, ◌%◌, ◌^◌, Option, none, some}
use frelay.Common.{List, [], ◌∷◌, ◌++◌, length, take, drop, replicate, slice, write}
use frelay.Common.{Bool, true, false, ltb, leb, ◌==◌, if◌then◌else◌}
use frelay.Common.{Outcome, returns, dies, faults, ◌>>=◌}
use frelay.Status.{sc_msgstr}
use frelay.Bytes.{ByteOrder, little_endian, put16, put32, put64, get16, get32, get64}

abbrev pub host : ByteOrder
host = little_endian

abbrev pub msg_hdr_size : ℕ
msg_hdr_size = 40

abbrev msg_max_pay_size : ℕ
msg_max_pay_size = 65400

abbrev msg_max_size : ℕ
msg_max_size = msg_hdr_size + msg_max_pay_size

abbrev pub roundup8 : ℕ → ℕ
roundup8 n = (n + 7) / 8 * 8

pub record MBuf : Type 0 where
  pub bsize : ℕ
  pub boff : ℕ
  pub b : List ℕ

-- What the C library hands in: the byte that fresh memory holds at each offset, and `ntime_get()`.
pub record Env : Type 0 where
  pub heap : ℕ → ℕ
  pub clock : ℕ

-- The header fields: network-order words at fixed offsets.
unfoldable pub hdr_get_type : MBuf → ℕ
hdr_get_type p = get16 host (slice 0 2 p.b)

unfoldable pub hdr_get_paylen : MBuf → ℕ
hdr_get_paylen p = get16 host (slice 2 2 p.b)

unfoldable pub hdr_get_rfu : MBuf → ℕ
hdr_get_rfu p = get32 host (slice 4 4 p.b)

unfoldable pub hdr_get_ts : MBuf → ℕ
hdr_get_ts p = get64 host (slice 8 8 p.b)

unfoldable pub hdr_get_srcid : MBuf → ℕ
hdr_get_srcid p = get64 host (slice 16 8 p.b)

unfoldable pub hdr_get_dstid : MBuf → ℕ
hdr_get_dstid p = get64 host (slice 24 8 p.b)

unfoldable pub hdr_get_trfid : MBuf → ℕ
hdr_get_trfid p = get64 host (slice 32 8 p.b)

unfoldable pub hdr_set_type : MBuf → ℕ → MBuf
hdr_set_type p v = record p { b = write 0 (put16 host v) p.b }

unfoldable pub hdr_set_paylen : MBuf → ℕ → MBuf
hdr_set_paylen p v = record p { b = write 2 (put16 host v) p.b }

unfoldable pub hdr_set_rfu : MBuf → ℕ → MBuf
hdr_set_rfu p v = record p { b = write 4 (put32 host v) p.b }

unfoldable pub hdr_set_ts : MBuf → ℕ → MBuf
hdr_set_ts p v = record p { b = write 8 (put64 host v) p.b }

unfoldable pub hdr_set_srcid : MBuf → ℕ → MBuf
hdr_set_srcid p v = record p { b = write 16 (put64 host v) p.b }

unfoldable pub hdr_set_dstid : MBuf → ℕ → MBuf
hdr_set_dstid p v = record p { b = write 24 (put64 host v) p.b }

unfoldable pub hdr_set_trfid : MBuf → ℕ → MBuf
hdr_set_trfid p v = record p { b = write 32 (put64 host v) p.b }

-- The message classes.
abbrev pub mclass_ind : ℕ
mclass_ind = 0x0000

abbrev pub mclass_req : ℕ
mclass_req = 0x0001

abbrev pub mclass_res : ℕ
mclass_res = 0x0002

abbrev pub mclass_err : ℕ
mclass_err = 0x000a

-- `MCLASS_TO_RES` and `MCLASS_TO_ERR`.
unfoldable pub mclass_to_res : ℕ → ℕ
mclass_to_res t = bit_or (bit_and t 0xfff0) 0x0002

unfoldable pub mclass_to_err : ℕ → ℕ
mclass_to_err t = bit_or (bit_and t 0xfff0) 0x000a

unfoldable pub mtype_get_class : ℕ → ℕ
mtype_get_class t = bit_and t 0x000f

unfoldable pub mclass_is_req : ℕ → Bool
mclass_is_req t = mtype_get_class t == mclass_req

unfoldable pub mclass_is_res : ℕ → Bool
mclass_is_res t = mtype_get_class t == mclass_res

unfoldable pub mclass_is_err : ℕ → Bool
mclass_is_err t = mtype_get_class t == mclass_err

-- `n` bytes of fresh memory, from offset `o` on.
unfoldable pub fresh : Env → ℕ → ℕ → List ℕ
fresh e o zero = []
fresh e o (suc n) = e.heap o ∷ fresh e (o + 1) n

unfoldable pub mbuf_new : Env → MBuf
mbuf_new e = record { bsize = msg_hdr_size; boff = 0; b = fresh e 0 msg_hdr_size }

-- `realloc` keeps what fits; what is added is fresh.
unfoldable pub realloc : Env → List ℕ → ℕ → List ℕ
realloc e b n = take n b ++ fresh e (length b) (n - length b)

unfoldable pub mbuf_resize : Env → MBuf → ℕ → Outcome MBuf
mbuf_resize e p paylen =
    let size = paylen + msg_hdr_size in
    if ltb msg_max_size size
    then dies
    else returns (record {
      bsize = size;
      boff = if ltb size p.boff then size else p.boff;
      b = realloc e p.b size;
    })

-- The `memset` clears the last `amount` bytes.
unfoldable pub mbuf_grow : Env → MBuf → ℕ → Outcome MBuf
mbuf_grow e p amount = do
  q ← mbuf_resize e p (p.bsize - msg_hdr_size + amount)
  returns (record q { b = write (q.bsize - amount) (replicate amount 0) q.b })

unfoldable pub mbuf_compose : Env → Option MBuf → ℕ → ℕ → ℕ → ℕ → Outcome MBuf
mbuf_compose e pp type srcid dstid trfid = do
  p ← elim pp [ none ↦ returns (mbuf_new e) | some q ↦ mbuf_resize e q 0 ]
  let p0 = record p { boff = 0 }
  let p1 = hdr_set_type p0 type
  let p2 = hdr_set_paylen p1 0
  let p3 = hdr_set_rfu p2 0
  let p4 = hdr_set_ts p3 e.clock
  let p5 = hdr_set_srcid p4 srcid
  let p6 = hdr_set_dstid p5 dstid
  returns (hdr_set_trfid p6 trfid)

unfoldable pub mbuf_to_response : Env → MBuf → Outcome MBuf
mbuf_to_response e pp = do
  p ← mbuf_resize e pp 0
  let p0 = record p { boff = 0 }
  let p1 = hdr_set_type p0 (mclass_to_res (hdr_get_type p0))
  let p2 = hdr_set_paylen p1 0
  let p3 = hdr_set_rfu p2 0
  let p4 = hdr_set_ts p3 e.clock
  let srcid = hdr_get_srcid p4
  let p5 = hdr_set_srcid p4 (hdr_get_dstid p4)
  returns (hdr_set_dstid p5 srcid)

pub data AvType : Type 0 where
  avtype_none avtype_ui64 avtype_str avtype_blob : AvType

-- The argument behind `...`: a word, a string without its terminator, or bytes.
pub data AttrArg : Type 0 where
  null : AttrArg
  ui64 : ℕ → AttrArg
  str : List ℕ → AttrArg
  blob : List ℕ → AttrArg

-- The `switch` of `mbuf_addattrib`: how the value is encoded and the length that is used.
unfoldable pub avtype_of : ℕ → ℕ → Outcome (AvType × ℕ)
avtype_of attype len =
    if attype == MsgAttr.username
    then returns (avtype_str, len)
    else if attype == MsgAttr.pubkey
    then returns (avtype_blob, len)
    else if attype == MsgAttr.challenge
    then returns (avtype_blob, len)
    else if attype == MsgAttr.digest
    then returns (avtype_blob, len)
    else if attype == MsgAttr.signature
    then returns (avtype_blob, len)
    else if attype == MsgAttr.peerid
    then returns (avtype_ui64, 8)
    else if attype == MsgAttr.peername
    then returns (avtype_str, len)
    else if attype == MsgAttr.offerid
    then returns (avtype_ui64, 8)
    else if attype == MsgAttr.filename
    then returns (avtype_str, len)
    else if attype == MsgAttr.size
    then returns (avtype_ui64, 8)
    else if attype == MsgAttr.offset
    then returns (avtype_ui64, 8)
    else if attype == MsgAttr.data_
    then returns (avtype_blob, len)
    else if attype == MsgAttr.ok
    then returns (avtype_none, 0)
    else if attype == MsgAttr.error
    then returns (avtype_ui64, 8)
    else if attype == MsgAttr.notice
    then returns (avtype_str, len)
    else dies

-- The bytes that the second `switch` copies behind the attribute's head. An argument of another
-- kind than the type wants, and a blob shorter than `length`, are read out of bounds.
unfoldable pub attr_value : AvType → ℕ → AttrArg → Outcome (List ℕ)
attr_value avtype_ui64 len (ui64 v) = returns (put64 host v)
attr_value avtype_str len (str s) = returns (s ++ (0 ∷ []))
attr_value avtype_blob len (blob v) = if leb len (length v) then returns (take len v) else faults
attr_value avtype_none len v = returns []
attr_value t len v = faults

-- A copy into the buffer; `strcpy` knows no bound.
unfoldable pub copy_in : MBuf → ℕ → List ℕ → Outcome MBuf
copy_in p o vs =
    if leb (o + length vs) p.bsize then returns (record p { b = write o vs p.b }) else faults

unfoldable pub attr_head : ℕ → ℕ → List ℕ
attr_head attype len = put16 host attype ++ (put16 host len ++ put32 host 0)

unfoldable pub mbuf_addattrib : Env → MBuf → ℕ → ℕ → AttrArg → Outcome MBuf
mbuf_addattrib e p attype len arg = do
  (avtype, length') ← avtype_of attype len
  let aoff = p.bsize
  p1 ← mbuf_grow e p (roundup8 length' + 8)
  let p2 = hdr_set_paylen p1 (p1.bsize - msg_hdr_size)
  p3 ← copy_in p2 aoff (attr_head attype length')
  v ← attr_value avtype length' arg
  copy_in p3 (aoff + 8) v

-- What `mbuf_getnextattrib` stores: the type, the length, and the offset that `*pval` points to.
pub record Attr : Type 0 where
  pub at : ℕ
  pub al : ℕ
  pub av : ℕ

unfoldable pub mbuf_getnextattrib : MBuf → Option Attr × MBuf
mbuf_getnextattrib p =
    if ltb p.bsize (p.boff + 8)
    then (none, p)
    else (let len = get16 host (slice (p.boff + 2) 2 p.b) in
        if ltb p.bsize (p.boff + 8 + len) then (none, p) else (
          some (record { at = get16 host (slice p.boff 2 p.b); al = len; av = p.boff + 8 }),
          record p { boff = p.boff + 8 + roundup8 len },
        ))

unfoldable pub mbuf_resetgetattrib : MBuf → MBuf
mbuf_resetgetattrib p = record p { boff = msg_hdr_size }

unfoldable pub mbuf_to_error_response : Env → MBuf → ℕ → Outcome MBuf
mbuf_to_error_response e pp ec = do
  p ← mbuf_to_response e pp
  let p1 = hdr_set_type p (mclass_to_err (hdr_get_type p))
  let errmsg = sc_msgstr ec
  p2 ← mbuf_addattrib e p1 MsgAttr.error 8 (ui64 ec)
  mbuf_addattrib e p2 MsgAttr.notice (length errmsg + 1) (str errmsg)

-- A C string in the buffer at offset `o`. One without a terminator is read past the end.
unfoldable pub c_string : List ℕ → Outcome (List ℕ)
c_string [] = faults
c_string (c ∷ cs) =
    let rest = c_string cs in if c == 0 then returns [] else (rest >>= λ s. returns (c ∷ s))

unfoldable pub string_at : MBuf → ℕ → Outcome (List ℕ)
string_at p o = c_string (drop o p.b)
