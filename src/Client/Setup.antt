-- ===== src/Client/Setup.antt =====
-- cltmain.c: two clients between the rounds of a file transfer.
use frelay.Common.{ℕ, ◌+◌, ◌-◌, ◌%◌, ◌^◌, ◌≤◌, ◌<◌, ◌≡◌, refl, ap, ◌∙◌, arith}
use frelay.Common.{List, [], ◌∷◌, ◌++◌, length, take, drop, set, Option, none, some, true}
use frelay.Common.{returns, length-take, length-drop, ltb, if◌then◌else◌}
use frelay.Message.{MBuf}
use frelay.Message.MsgType
use frelay.Message.Header.{Header}
use frelay.Message.RoundTrip.{Carries}
use frelay.Transfer.{Transfer, ttype_offer, ttype_download}
use frelay.Transfer.Matching.{FirstMatch}
use frelay.Client.{Client, Sys, is_auth_ok, wrote, enqueue_msg}
use frelay.Client.Dispatch.{process_srvmsg}
use frelay.Client.Replies.{chunk_size, max_data_size}
use frelay.Client.Serving.{request_attrs, type_of}
use frelay.Client.Exchange.{relay, sent, exchange, Holds}
use frelay.Client.Rounds.{Carries-queued, sent-answer}

-- The two clients' systems in each round: the one has the file, the other can write it, and the
-- names and the sizes are short enough for the lines on the console.
pub record Setup (ka kb : ℕ → Sys) (file content name part : List ℕ) (ida idb oid : ℕ)
    : Type 0 where
  pub holds : (t : ℕ) → Holds (ka t).files file content
  pub writes : (t : ℕ) (bytes : List ℕ) → (kb t).files.write bytes ≡ some (length bytes)
  pub renames : (t : ℕ) → (kb t).files.rename part name ≡ true
  pub a_time : (t : ℕ) → 0 < (ka t).now
  pub b_time : (t : ℕ) → 0 < (kb t).now
  pub a_sizes : (t n : ℕ) → length ((ka t).formats.human_size n) ≤ 64
  pub b_sizes : (t n : ℕ) → length ((kb t).formats.human_size n) ≤ 64
  pub file_short : length file ≤ 3900
  pub name_short : length name ≤ 3900
  pub ida_small : ida < 2 ^ 64
  pub idb_small : idb < 2 ^ 64
  pub oid_small : oid < 2 ^ 64
  pub content_small : length content < 2 ^ 64

-- How much is asked for at an offset.
abbrev pub chunk : List ℕ → ℕ → ℕ
chunk content off =
    if ltb (length content - off) max_data_size then length content - off else max_data_size

-- Between two rounds: `b` has the bytes before `off`, and has asked for those from there on.
pub record Between (file content name part : List ℕ) (ida idb oid : ℕ) (a b : Client) (off : ℕ)
    : Type 0 where
  pub a_ok : is_auth_ok a.st ≡ true
  pub b_ok : is_auth_ok b.st ≡ true
  pub a_idle : a.queue ≡ []
  pub q : MBuf
  pub h : Header
  pub b_asks : b.queue ≡ q ∷ []
  pub b_waits : b.requests ≡ []
  pub asks : Carries q h (request_attrs oid off (chunk content off))
  pub typed : h.type ≡ MsgType.getfile_req
  pub addressed : h.dstid ≡ ida
  pub trfid_small : h.trfid < 2 ^ 64
  pub i : ℕ
  pub o : Transfer
  pub offered : FirstMatch ttype_offer idb oid a.transfers i o
  pub o_name : o.name ≡ some file
  pub j : ℕ
  pub d : Transfer
  pub known : FirstMatch ttype_download ida oid b.transfers j d
  pub d_rid : d.rid ≡ ida
  pub d_name : d.name ≡ some name
  pub d_part : d.partname ≡ some part
  pub fd : ℕ
  pub d_fd : d.fd ≡ some fd
  pub d_offset : d.offset ≡ off
  pub d_size : d.size ≡ length content
  pub inside : off ≤ length content

-- The bytes of one round.
abbrev pub bytes_at : List ℕ → ℕ → List ℕ
bytes_at content off = take (chunk content off) (drop off content)

pub length-bytes_at :
    (content : List ℕ) (off : ℕ)
    → off ≤ length content
    → length (bytes_at content off) ≡ chunk content off
length-bytes_at content off h =
    let fits : chunk content off ≤ length content - off = ground arith in
    omega (arith, fits, length-take (chunk content off) (drop off content), length-drop off content)

-- What is asked for next, in terms of the download.
pub chunk_size-chunk :
    (content : List ℕ) (d : Transfer)
    → d.size ≡ length content
    → d.offset ≤ length content
    → length content < 2 ^ 64
    → chunk_size d ≡ chunk content d.offset
chunk_size-chunk content d e inside small =
    let missing : (d.size + 2 ^ 64 - d.offset) % 2 ^ 64 ≡ length content - d.offset = omega arith in
    ap (λ sz. if ltb sz max_data_size then sz else max_data_size) missing

-- The four steps of a round.
pub exchange-runs :
    (ka kb : Sys) (ida idb : ℕ) (a b a1 b1 a2 b2 : Client) (q r : MBuf)
    → sent b ≡ returns (q, b1)
    → process_srvmsg ka a (relay idb q) ≡ returns a1
    → sent a1 ≡ returns (r, a2)
    → process_srvmsg kb b1 (relay ida r) ≡ returns b2
    → exchange ka kb ida idb a b ≡ returns (a2, b2)
unfolding exchange
exchange-runs ka kb ida idb a b a1 b1 a2 b2 q r e1 e2 e3 e4 = rw (e1, e2, e3, e4) refl

-- The only message of a client that was idle.
pub sent-queued :
    (s : Client) (r : MBuf) (h : Header) (attrs : List (ℕ × List ℕ))
    → s.queue ≡ []
    → Carries r h attrs
    → h.type ≡ MsgType.getfile_res
    → sent (enqueue_msg s r) ≡ returns (record r { boff = 0 }, record s { queue = [] })
unfolding enqueue_msg
sent-queued s r h attrs idle c type =
    sent-answer (enqueue_msg s r) (record r { boff = 0 })
      (ap (λ l. l ++ record r { boff = 0 } ∷ []) idle)
      (type_of _ h _ (Carries-queued r h attrs c) ∙ type)

-- `b` after it has written `bytes` for the download at `j`.
abbrev pub took : Client → ℕ → Transfer → Option (List ℕ) → List ℕ → Client
took b j d part bytes = record b {
  rbuf = none;
  queue = [];
  requests = [];
  transfers = set b.transfers j d;
  effects = b.effects ++ wrote part bytes ∷ [];
}
