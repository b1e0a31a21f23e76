-- ===== src/Client/Receiving.antt =====
-- cltmain.c, MSG_TYPE_GETFILE_RES: the side of a transfer that receives the file.
use frelay.Common.{◌-◌, ◌≤◌, ltb, Bool-cases, ◌⊎◌, inl, inr}
use frelay.Common.{ℕ, ◌+◌, ◌%◌, ◌^◌, ◌<◌, ◌≡◌, refl, ◌∙◌, arith}
use frelay.Common.{List, [], ◌∷◌, ◌++◌, length, set, some, none, true, false, ◌==◌}
use frelay.Common.{set-set, if◌then◌else◌, returns, ◌>>=◌, codes}
use frelay.Bytes.{put64}
use frelay.Bytes.Order.{length-put64}
use frelay.Message.MsgAttr
use frelay.Message.MsgType
use frelay.Message.{MBuf, host, mbuf_resetgetattrib, mclass_is_res, mtype_get_class}
use frelay.Message.Buffer.{composed_header}
use frelay.Message.Cursor.{AtAttrs, getnextattrib-Next}
use frelay.Message.Header.{Header}
use frelay.Message.RoundTrip.{Carries}
use frelay.Transfer.{Transfer, ttype_download, transfer_invalidate}
use frelay.Transfer.FileAccess.{download_write}
use frelay.Transfer.Format.{transfer_itostr}
use frelay.Transfer.Matching.{FirstMatch, transfer_match-first, FirstMatch-get}
use frelay.Client.{
  Client, Sys, is_auth_ok, enqueue_msg, match_pending_req, wrote, renamed, shown, dfin, derr, note,
  printcon,
}
use frelay.Client.Attributes.{after, put_transfer}
use frelay.Client.Replies.{
  getfile_res, getfile_for, getfile_found, take_data, write_data, written, request_data,
  finish_download, chunk_size,
}
use frelay.Client.Dispatch.{serve, handle, settle, respond, process_srvmsg}
use frelay.Client.Wire.{
  Carries-AtAttrs, compose-Carries, wanted-Next, word-Next, word-IsWire, offerid-IsAttr,
  offset-IsAttr, size-IsAttr,
}
use frelay.Client.Serving.{request_attrs, data_attrs, settle-answer, type_of, srcid_of}

getfile_res-takes :
    (k : Sys) (s : Client) (m : MBuf) (srcid oid i : ℕ) (d : Transfer) (bytes : List ℕ)
    → is_auth_ok s.st ≡ true
    → AtAttrs m (data_attrs oid bytes)
    → oid < 2 ^ 64
    → length bytes < 2 ^ 16
    → FirstMatch ttype_download srcid oid s.transfers i d
    → getfile_res k s m srcid
      ≡ take_data k
          (record s { transfers = set s.transfers i (record d { tact = k.now }) })
          i
          (record d { tact = k.now })
          oid
          bytes
unfolding getfile_res getfile_for getfile_found after
getfile_res-takes k s m srcid oid i d bytes ok a oid_small small f =
    let n1 =
      getnextattrib-Next m MsgAttr.offerid (put64 host oid) _ a (word-IsWire _ oid (omega arith)) in
    let n2 = getnextattrib-Next (after m) MsgAttr.data_ bytes [] n1.at_more (omega arith, small) in
    rw
      (
        ok,
        wanted-Next m MsgAttr.offerid (put64 host oid) _ n1,
        word-Next m MsgAttr.offerid oid _ n1 oid_small,
        transfer_match-first ttype_download srcid oid k.now s.transfers i d f,
        wanted-Next (after m) MsgAttr.data_ bytes [] n2,
        FirstMatch-get ttype_download srcid oid s.transfers i d (record d { tact = k.now }) f,
        n2.value,
      )
      refl

serve-getfile_res :
    (k : Sys) (s : Client) (m : MBuf) (srcid trfid : ℕ)
    → serve k s m MsgType.getfile_res srcid trfid ≡ getfile_res k s m srcid
unfolding serve
serve-getfile_res k s m srcid trfid = refl

is_response : mclass_is_res MsgType.getfile_res ≡ true
unfolding mclass_is_res mtype_get_class
is_response = refl

-- A response with data of a download, to a request that waits for it; `rest` are the others.
pub record Arrived (k : Sys) (s : Client) (m : MBuf) (h : Header) (oid i : ℕ) (d : Transfer)
    (bytes : List ℕ) (q : MBuf) (rest : List MBuf) (buf : List ℕ) : Type 0 where
  pub ok : is_auth_ok s.st ≡ true
  pub pending : match_pending_req m s.requests ≡ (some q, rest)
  pub carries : Carries m h (data_attrs oid bytes)
  pub typed : h.type ≡ MsgType.getfile_res
  pub oid_small : oid < 2 ^ 64
  pub small : length bytes < 2 ^ 16
  pub known : FirstMatch ttype_download h.srcid oid s.transfers i d
  pub printed :
      transfer_itostr k.formats 4096 (some (codes "%i '%n' %O/%S %D")) (record d { tact = k.now })
      ≡ returns buf

process_srvmsg-takes :
    (k : Sys) (s : Client) (m : MBuf) (h : Header) (oid i : ℕ) (d : Transfer) (bytes : List ℕ)
    (q : MBuf) (rest : List MBuf) (buf : List ℕ)
    → Arrived k s m h oid i d bytes q rest buf
    → process_srvmsg k s m ≡ (
        take_data k
          (record s { requests = rest; transfers = set s.transfers i (record d { tact = k.now }) })
          i
          (record d { tact = k.now })
          oid
          bytes
        >>= settle k m)
unfolding process_srvmsg respond handle
process_srvmsg-takes k s m h oid i d bytes q rest buf v =
    let type = type_of m h _ v.carries ∙ v.typed in
    rw
      (
        type,
        is_response,
        v.pending,
        type,
        srcid_of m h _ v.carries,
        serve-getfile_res,
        getfile_res-takes k (record s { requests = rest }) (mbuf_resetgetattrib m) h.srcid oid i d
            bytes v.ok (Carries-AtAttrs m h _ v.carries) v.oid_small v.small v.known,
      )
      refl

pub request_data-Carries :
    (k : Sys) (d : Transfer) (oid size : ℕ)
    → (r : MBuf) × (request_data k d oid size ≡ returns r)
      × Carries r
          (composed_header k.env.clock MsgType.getfile_req 0 d.rid k.random)
          (request_attrs oid d.offset size)
unfolding request_data
request_data-Carries k d oid size =
    compose-Carries k MsgType.getfile_req d.rid k.random _ (request_attrs oid d.offset size)
      (refl, offerid-IsAttr oid, (refl, offset-IsAttr d.offset, (refl, size-IsAttr size, tt)))
      (omega (arith, length-put64 host oid, length-put64 host d.offset, length-put64 host size))

-- The download after `bytes` more bytes.
abbrev pub advanced : Transfer → ℕ → Transfer
advanced d n = record d { offset = (d.offset + n) % 2 ^ 64 }

-- The bytes that a download still lacks after `n` more.
abbrev pub missing : Transfer → ℕ → ℕ
missing d n = (d.size + 2 ^ 64 - (d.offset + n) % 2 ^ 64) % 2 ^ 64

chunk_size-least :
    (d : Transfer)
    → let left = (d.size + 2 ^ 64 - d.offset) % 2 ^ 64 in
      (chunk_size d ≤ 65376)
      × (chunk_size d ≤ left)
      × ((chunk_size d ≡ left) ⊎ (chunk_size d ≡ 65376))
chunk_size-least d = elim (Bool-cases (ltb ((d.size + 2 ^ 64 - d.offset) % 2 ^ 64) 65376)) [
  | inl less ↦ rw less (ground arith, omega arith, inl refl)
  | inr more ↦ rw more (omega arith, ground arith, inr refl)
]

pub process_srvmsg-data :
    (k : Sys) (s : Client) (m : MBuf) (h : Header) (oid i : ℕ) (d d1 : Transfer) (bytes : List ℕ)
    (q : MBuf) (rest : List MBuf) (buf : List ℕ)
    → Arrived k s m h oid i d bytes q rest buf
    → 0 < length bytes
    → download_write k.files (record d { tact = k.now }) bytes ≡ (d1, true, bytes)
    → (r : MBuf) × (process_srvmsg k s m
        ≡ returns (
            enqueue_msg
              (record s {
                rbuf = none;
                requests = rest;
                transfers = set s.transfers i (advanced d1 (length bytes));
                effects = s.effects ++ wrote d.partname bytes ∷ [];
              })
              r))
      × Carries r (composed_header k.env.clock MsgType.getfile_req 0 d1.rid k.random) (
          request_attrs oid
            ((d1.offset + length bytes) % 2 ^ 64)
            (chunk_size (advanced d1 (length bytes))))
unfolding take_data write_data written put_transfer note
process_srvmsg-data k s m h oid i d d1 bytes q rest buf v some_data write =
    let d2 = advanced d1 (length bytes) in
    let (r, er, c) = request_data-Carries k d2 oid (chunk_size d2) in
    let some_bytes : (length bytes == 0) ≡ false = ground arith in
    (
      r,
      process_srvmsg-takes k s m h oid i d bytes q rest buf v
          ∙ rw (v.printed, some_bytes, write, er) (settle-answer k _ m r ∙ rw set-set refl),
      c,
    )

-- Data that arrives for a download is written to its partial file at once, and the data behind it
-- is asked for: the next request goes to the same peer for the same offer, from the new offset on,
-- for all that is missing or, if that is more, for the 65376 bytes that one message takes. Each of
-- these requests is a transaction of its own, with a random id.
pub process_srvmsg-writes :
    (k : Sys) (s : Client) (m : MBuf) (h : Header) (oid i : ℕ) (d d1 : Transfer) (bytes : List ℕ)
    (q : MBuf) (rest : List MBuf) (buf : List ℕ)
    → Arrived k s m h oid i d bytes q rest buf
    → 0 < length bytes
    → download_write k.files (record d { tact = k.now }) bytes ≡ (d1, true, bytes)
    → (r : MBuf) × (size : ℕ) × (process_srvmsg k s m
        ≡ returns (
            enqueue_msg
              (record s {
                rbuf = none;
                requests = rest;
                transfers = set s.transfers i (advanced d1 (length bytes));
                effects = s.effects ++ wrote d.partname bytes ∷ [];
              })
              r))
      × Carries r
          (composed_header k.env.clock MsgType.getfile_req 0 d1.rid k.random)
          (request_attrs oid ((d1.offset + length bytes) % 2 ^ 64) size)
      × (size ≤ 65376)
      × (size ≤ missing d1 (length bytes))
      × ((size ≡ missing d1 (length bytes)) ⊎ (size ≡ 65376))
process_srvmsg-writes k s m h oid i d d1 bytes q rest buf v some_data write =
    let (r, er, c) = process_srvmsg-data k s m h oid i d d1 bytes q rest buf v some_data write in
    let (most, fits, which) = chunk_size-least (advanced d1 (length bytes)) in
    (r, chunk_size (advanced d1 (length bytes)), er, c, most, fits, which)

-- A response without data ends a download: it is invalidated, and its partial file gets the name
-- of the file. Only the line on the console tells a download that is complete from one that is not.
pub process_srvmsg-completes :
    (k : Sys) (s : Client) (m : MBuf) (h : Header) (oid i : ℕ) (d : Transfer) (q : MBuf)
    (rest : List MBuf) (buf name part : List ℕ)
    → Arrived k s m h oid i d [] q rest buf
    → d.name ≡ some name
    → d.partname ≡ some part
    → k.files.rename part name ≡ true
    → process_srvmsg k s m
      ≡ returns (record s {
        rbuf = none;
        requests = rest;
        transfers = set s.transfers i (transfer_invalidate (record d { tact = k.now }));
        effects =
            (s.effects ++ shown (if d.offset == d.size then dfin else derr) none ∷ [])
            ++ renamed d.partname d.name ∷ [];
      })
unfolding take_data finish_download put_transfer note printcon settle
process_srvmsg-completes k s m h oid i d q rest buf name part v en ep moved =
    process_srvmsg-takes k s m h oid i d [] q rest buf v
    ∙ rw (v.printed, ep, en, moved) (rw set-set refl)
