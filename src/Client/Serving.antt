-- ===== src/Client/Serving.antt =====
-- cltmain.c, MSG_TYPE_GETFILE_REQ: the side of a transfer that has the file.
use frelay.Common.{ℕ, ◌+◌, ◌%◌, ◌^◌, ◌≤◌, ◌<◌, ◌≡◌, refl, ap, ◌∙◌, arith}
use frelay.Common.{List, [], ◌∷◌, length, set, some, none, true, false, ◌==◌}
use frelay.Common.{set-set, returns, ◌>>=◌, codes}
use frelay.Bytes.{put64}
use frelay.Bytes.Order.{length-put64}
use frelay.Message.MsgAttr
use frelay.Message.MsgType
use frelay.Message.{
  MBuf, blob, host, hdr_get_type, hdr_get_srcid, hdr_get_trfid, mbuf_resetgetattrib, mclass_is_res,
  mtype_get_class,
}
use frelay.Message.Buffer.{composed_header}
use frelay.Message.Cursor.{AtAttrs, getnextattrib-Next}
use frelay.Message.Header.{Header, header}
use frelay.Message.RoundTrip.{Carries}
use frelay.Status.{sc_ok}
use frelay.Transfer.{Transfer, ttype_offer, transfer_invalidate}
use frelay.Transfer.Format.{transfer_itostr}
use frelay.Transfer.FileAccess.{offer_read}
use frelay.Transfer.Matching.{FirstMatch, transfer_match-first, FirstMatch-get}
use frelay.Client.{Client, Sys, is_auth_ok, enqueue_msg, printcon, note, ufin}
use frelay.Client.Attributes.{after, word_call, put_transfer}
use frelay.Client.Peers.{getfile_req, getfile_of, serve_found, serve_offer, read_data, send_data}
use frelay.Client.Dispatch.{serve, handle, settle, process_srvmsg}
use frelay.Client.Wire.{
  Carries-AtAttrs, compose-Carries, wanted-Next, word-Next, word_or_zero-Next, word-IsWire,
  offerid-IsAttr, data-IsAttr,
}

-- The attributes of a request for `size` bytes from `offset` on, and of the response.
abbrev pub request_attrs : ℕ → ℕ → ℕ → List (ℕ × List ℕ)
request_attrs oid offset size =
    (MsgAttr.offerid, put64 host oid)
    ∷ (MsgAttr.offset, put64 host offset)
    ∷ (MsgAttr.size, put64 host size)
    ∷ []

abbrev pub data_attrs : ℕ → List ℕ → List (ℕ × List ℕ)
data_attrs oid bytes = (MsgAttr.offerid, put64 host oid) ∷ (MsgAttr.data_, bytes) ∷ []

-- The case, up to the point where the offer has been found and the attributes read.
getfile_req-serves :
    (k : Sys) (s : Client) (m : MBuf) (srcid trfid oid offset size i : ℕ) (o : Transfer)
    → is_auth_ok s.st ≡ true
    → AtAttrs m (request_attrs oid offset size)
    → oid < 2 ^ 64
    → offset < 2 ^ 64
    → size < 2 ^ 64
    → FirstMatch ttype_offer srcid oid s.transfers i o
    → getfile_req k s m srcid trfid
      ≡ serve_offer k
          (record s { transfers = set s.transfers i (record o { tact = k.now }) })
          i
          (record o { tact = k.now })
          oid
          offset
          size
          srcid
          trfid
unfolding getfile_req getfile_of serve_found after
getfile_req-serves k s m srcid trfid oid offset size i o ok a oid_small offset_small size_small f =
    let n1 =
      getnextattrib-Next m MsgAttr.offerid (put64 host oid) _ a (word-IsWire _ oid (omega arith)) in
    let n2 =
      getnextattrib-Next (after m) MsgAttr.offset (put64 host offset) _ n1.at_more
        (word-IsWire _ offset (omega arith)) in
    let n3 =
      getnextattrib-Next (after (after m)) MsgAttr.size (put64 host size) _ n2.at_more
        (word-IsWire _ size (omega arith)) in
    rw
      (
        ok,
        wanted-Next m MsgAttr.offerid (put64 host oid) _ n1,
        word-Next m MsgAttr.offerid oid _ n1 oid_small,
        transfer_match-first ttype_offer srcid oid k.now s.transfers i o f,
        word_or_zero-Next (after m) MsgAttr.offset offset _ n2 offset_small,
        word_or_zero-Next (after (after m)) MsgAttr.size size _ n3 size_small,
        FirstMatch-get ttype_offer srcid oid s.transfers i o (record o { tact = k.now }) f,
      )
      refl

serve-getfile_req :
    (k : Sys) (s : Client) (m : MBuf) (srcid trfid : ℕ)
    → serve k s m MsgType.getfile_req srcid trfid ≡ getfile_req k s m srcid trfid
unfolding serve
serve-getfile_req k s m srcid trfid = refl

not_response : mclass_is_res MsgType.getfile_req ≡ false
unfolding mclass_is_res mtype_get_class
not_response = refl

-- A case that answers queues its answer.
pub settle-answer :
    (k : Sys) (s : Client) (m mp : MBuf)
    → settle k m (record { client = s; mp = some mp; status = sc_ok })
      ≡ returns (enqueue_msg (record s { rbuf = none }) mp)
unfolding settle
settle-answer k s m mp = refl

-- The fields of the header of a message that carries attributes.
pub type_of :
    (m : MBuf) (h : Header) (attrs : List (ℕ × List ℕ))
    → Carries m h attrs
    → hdr_get_type m ≡ h.type
unfolding header
type_of m h attrs c = ap (λ x. x.type) c.reads

pub srcid_of :
    (m : MBuf) (h : Header) (attrs : List (ℕ × List ℕ))
    → Carries m h attrs
    → hdr_get_srcid m ≡ h.srcid
unfolding header
srcid_of m h attrs c = ap (λ x. x.srcid) c.reads

pub trfid_of :
    (m : MBuf) (h : Header) (attrs : List (ℕ × List ℕ))
    → Carries m h attrs
    → hdr_get_trfid m ≡ h.trfid
unfolding header
trfid_of m h attrs c = ap (λ x. x.trfid) c.reads

-- A request that is being served, and the offer that it is for.
pub record Served (k : Sys) (s : Client) (m : MBuf) (h : Header) (oid offset size i : ℕ)
    (o : Transfer) : Type 0 where
  pub ok : is_auth_ok s.st ≡ true
  pub carries : Carries m h (request_attrs oid offset size)
  pub typed : h.type ≡ MsgType.getfile_req
  pub oid_small : oid < 2 ^ 64
  pub offset_small : offset < 2 ^ 64
  pub size_small : size < 2 ^ 64
  pub offered : FirstMatch ttype_offer h.srcid oid s.transfers i o

process_srvmsg-serves :
    (k : Sys) (s : Client) (m : MBuf) (h : Header) (oid offset size i : ℕ) (o : Transfer)
    → Served k s m h oid offset size i o
    → process_srvmsg k s m ≡ (
        serve_offer k
          (record s { transfers = set s.transfers i (record o { tact = k.now }) })
          i
          (record o { tact = k.now })
          oid
          offset
          size
          h.srcid
          h.trfid
        >>= settle k m)
unfolding process_srvmsg handle
process_srvmsg-serves k s m h oid offset size i o v =
    let type = type_of m h _ v.carries ∙ v.typed in
    rw
      (
        type,
        srcid_of m h _ v.carries,
        trfid_of m h _ v.carries,
        not_response,
        serve-getfile_req,
        getfile_req-serves k s (mbuf_resetgetattrib m) h.srcid h.trfid oid offset size i o v.ok
            (Carries-AtAttrs m h _ v.carries) v.oid_small v.offset_small v.size_small v.offered,
      )
      refl

-- The answer with the bytes that were read.
send_data-Carries :
    (k : Sys) (s : Client) (m : MBuf) (i : ℕ) (o : Transfer) (oid offset : ℕ) (bytes : List ℕ)
    (srcid trfid : ℕ)
    → length bytes ≤ 65376
    → (r : MBuf) × ((send_data k s i o oid offset bytes (length bytes) srcid trfid >>= settle k m)
        ≡ returns (
            enqueue_msg
              (record (put_transfer s i (record o { offset = (offset + length bytes) % 2 ^ 64 })) {
                rbuf = none;
              })
              r))
      × Carries r
          (composed_header k.env.clock MsgType.getfile_res 0 srcid trfid)
          (data_attrs oid bytes)
unfolding send_data
send_data-Carries k s m i o oid offset bytes srcid trfid small =
    let (r, er, c) =
      compose-Carries k MsgType.getfile_res srcid trfid
        (word_call MsgAttr.offerid oid
          ∷ record { attype = MsgAttr.data_; len = length bytes; arg = blob bytes }
          ∷ [])
        (data_attrs oid bytes) (refl, offerid-IsAttr oid, (refl, data-IsAttr bytes, tt))
        (omega (arith, length-put64 host oid)) in
    (r, rw er (settle-answer k _ m r), c)

-- A request for data that the file has is answered with them: the bytes that `read` gave for the
-- offset and the size of the request, in a response to the peer that asked, under its transaction
-- and for the same offer. The offer notes how far the peer has come; nothing else changes.
pub process_srvmsg-sends :
    (k : Sys) (s : Client) (m : MBuf) (h : Header) (oid offset size i : ℕ) (o o1 : Transfer)
    (bytes : List ℕ)
    → Served k s m h oid offset size i o
    → 0 < size
    → offer_read k.files (record o { tact = k.now }) offset size
      ≡ returns (o1, some bytes, length bytes)
    → length bytes ≤ 65376
    → (r : MBuf) × (process_srvmsg k s m
        ≡ returns (
            enqueue_msg
              (record s {
                rbuf = none;
                transfers =
                    set s.transfers i (record o1 { offset = (offset + length bytes) % 2 ^ 64 });
              })
              r))
      × Carries r
          (composed_header k.env.clock MsgType.getfile_res 0 h.srcid h.trfid)
          (data_attrs oid bytes)
unfolding serve_offer read_data put_transfer
process_srvmsg-sends k s m h oid offset size i o o1 bytes v some_size read small =
    let o0 = record o { tact = k.now } in
    let s0 = record s { transfers = set s.transfers i o0 } in
    let nonzero : (size == 0) ≡ false = ground arith in
    let (r, er, c) = send_data-Carries k s0 m i o1 oid offset bytes h.srcid h.trfid small in
    (
      r,
      process_srvmsg-serves k s m h oid offset size i o v
          ∙ rw (nonzero, read) (er ∙ rw set-set refl),
      c,
    )

-- A request of size 0 ends the transfer: the offer is invalidated, and the answer has no data.
pub process_srvmsg-ends :
    (k : Sys) (s : Client) (m : MBuf) (h : Header) (oid offset i : ℕ) (o : Transfer) (buf : List ℕ)
    → Served k s m h oid offset 0 i o
    → transfer_itostr k.formats 4096 (some (codes "%i '%n' %S %D")) (record o { tact = k.now })
      ≡ returns buf
    → (r : MBuf) × (process_srvmsg k s m
        ≡ returns (
            enqueue_msg
              (record (printcon ufin s) {
                rbuf = none;
                transfers =
                    set s.transfers i (record (transfer_invalidate (record o { tact = k.now })) {
                      offset = (offset + 0) % 2 ^ 64;
                    });
              })
              r))
      × Carries r
          (composed_header k.env.clock MsgType.getfile_res 0 h.srcid h.trfid)
          (data_attrs oid [])
unfolding serve_offer put_transfer printcon note
process_srvmsg-ends k s m h oid offset i o buf v shown =
    let o0 = record o { tact = k.now } in
    let s0 = record s { transfers = set s.transfers i o0 } in
    let (r, er, c) =
      send_data-Carries k (printcon ufin s0) m i (transfer_invalidate o0) oid offset [] h.srcid
        h.trfid (omega arith) in
    (r, process_srvmsg-serves k s m h oid offset 0 i o v ∙ rw shown (er ∙ rw set-set refl), c)
