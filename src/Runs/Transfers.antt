-- ===== src/Runs/Transfers.antt =====
-- cltmain.c: the transfer of a file of five bytes from client 1 to client 2.
use frelay.Common.{◌⊎◌, ℕ, ◌≡◌, refl, arith, ◌≤◌, List, [], ◌∷◌, length, take, drop, codes}
use frelay.Common.{true, false, none, some, returns}
use frelay.Bytes.Order.{length-put64}
use frelay.Message.{MBuf, blob, host}
use frelay.Message.MsgAttr
use frelay.Message.MsgType
use frelay.Message.Header.{Header}
use frelay.Message.Buffer.{composed_header}
use frelay.Message.RoundTrip.{Carries}
use frelay.Transfer.{Transfer, ttype_offer, ttype_download, is_match, transfer_invalidate}
use frelay.Transfer.FileAccess.{FileSys, offer_read, read_at, download_write, write_out}
use frelay.Transfer.Format.{Formats}
use frelay.Client.{Client, Cfg, Sys, clt_auth_ok, enqueue_msg, shown, renamed, wrote, derr}
use frelay.Client.Dispatch.{process_srvmsg}
use frelay.Client.Attributes.{word_call}
use frelay.Client.Exchange.{relay}
use frelay.Client.Rounds.{Carries-queued}
use frelay.Client.Wire.{compose-Carries, offerid-IsAttr, data-IsAttr}
use frelay.Client.Serving.{Served, process_srvmsg-sends, request_attrs, data_attrs}
use frelay.Client.Receiving.{
  missing, Arrived, request_data-Carries, process_srvmsg-writes, process_srvmsg-completes,
}
use frelay.Client.Setup.{Setup, Between}
use frelay.Client.Download.{asked, arrives}
use frelay.Client.Completion.{Completed, exchanges_complete}

abbrev content : List ℕ
content = codes "hello"

abbrev pub files : FileSys
files = record {
  opened = λ name. some 3;
  created = λ name. some 4;
  seek = λ off. true;
  end_of = λ fd. some 0;
  read = λ off sz. some (take sz (drop off content));
  write = λ bytes. some (length bytes);
  rename = λ p n. true;
  malloc = λ sz. true;
}

abbrev formats : Formats
formats = record {
  human_size = λ n. codes "5.00B";
  local_time = λ t. codes "2020-01-01T00:00:00+0000";
  time = 9;
}

abbrev pub sys : Sys
sys = record {
  env = record { heap = λ i. 0; clock = 5 };
  now = 7;
  random = 11;
  files = files;
  formats = formats;
}

abbrev cfg : Cfg
cfg = record {
  host = none;
  port = none;
  resp_timeout = 10;
  offer_timeout = 100;
  username = none;
  pubkey = none;
  no_clobber = false;
}

abbrev offer : Transfer
offer = record {
  type = ttype_offer;
  rid = 2;
  oid = 77;
  name = some (codes "f");
  partname = none;
  size = 5;
  offset = 0;
  fd = none;
  tstart = 1;
  tact = 1;
}

abbrev pub download : Transfer
download = record {
  type = ttype_download;
  rid = 1;
  oid = 77;
  name = some (codes "f");
  partname = some (codes "f.part");
  size = 5;
  offset = 0;
  fd = some 4;
  tstart = 1;
  tact = 1;
}

abbrev asks :
    (q : MBuf) × Carries q (composed_header 5 MsgType.getfile_req 0 1 11) (request_attrs 77 0 5)
asks =
    let (q, e, c) = request_data-Carries sys download 77 5 in
    (record q { boff = 0 }, Carries-queued q _ _ c)

abbrev pub giver : Client
giver = record {
  cfg = cfg;
  st = clt_auth_ok;
  srvfd = some 3;
  rbuf = none;
  queue = [];
  requests = [];
  transfers = offer ∷ [];
  effects = [];
}

abbrev taker : Client
taker = record giver { queue = asks.0 ∷ []; transfers = download ∷ [] }

abbrev setup : Setup (λ t. sys) (λ t. sys) (codes "f") content (codes "f") (codes "f.part") 1 2 77
setup = record {
  holds = λ t. record {
    fd = 3;
    opens = refl;
    seeks = λ off. refl;
    mallocs = λ sz h. refl;
    reads = λ off sz. refl;
  };
  writes = λ t bytes. refl;
  renames = λ t. refl;
  a_time = λ t. omega arith;
  b_time = λ t. omega arith;
  a_sizes = λ t n. omega arith;
  b_sizes = λ t n. omega arith;
  file_short = omega arith;
  name_short = omega arith;
  ida_small = omega arith;
  idb_small = omega arith;
  oid_small = omega arith;
  content_small = omega arith;
}

matches : (is_match ttype_offer 2 77 offer ≡ true) × (is_match ttype_download 1 77 download ≡ true)
unfolding is_match
matches = (refl, refl)

abbrev between : Between (codes "f") content (codes "f") (codes "f.part") 1 2 77 giver taker 0
between = record {
  a_ok = refl;
  b_ok = refl;
  a_idle = refl;
  q = asks.0;
  h = composed_header 5 MsgType.getfile_req 0 1 11;
  b_asks = refl;
  b_waits = refl;
  asks = asks.1;
  typed = refl;
  addressed = refl;
  trfid_small = omega arith;
  i = 0;
  o = offer;
  offered = (refl, matches.0);
  o_name = refl;
  j = 0;
  d = download;
  known = (refl, matches.1);
  d_rid = refl;
  d_name = refl;
  d_part = refl;
  fd = 4;
  d_fd = refl;
  d_offset = refl;
  d_size = refl;
  inside = omega arith;
}

exchanges_complete_example :
    Completed (λ t. sys) (λ t. sys) 1 2 (codes "f.part") (codes "f") content 1 0 giver taker
exchanges_complete_example =
    exchanges_complete (λ t. sys) (λ t. sys) (codes "f") content (codes "f") (codes "f.part") 1 2 77
      setup 1 0 0 giver taker between (omega arith)

-- The request as it reaches client 1.
abbrev asked_for : Header
asked_for = record (composed_header 5 MsgType.getfile_req 0 1 11) { srcid = 2 }

abbrev being_served : Served sys giver (relay 2 asks.0) asked_for 77 0 5 0 offer
being_served =
    asked (λ t. sys) (λ t. sys) (codes "f") content (codes "f") (codes "f.part") 1 2 77 setup 0
      giver taker 0 between

reads_all :
    offer_read files (record offer { tact = 7 }) 0 5
    ≡ returns (record offer { tact = 7; fd = some 3 }, some content, 5)
unfolding offer_read read_at
reads_all = refl

process_srvmsg-sends_example :
    (r : MBuf) × (process_srvmsg sys giver (relay 2 asks.0)
      ≡ returns (
          enqueue_msg
            (record giver { transfers = record offer { tact = 7; fd = some 3; offset = 5 } ∷ [] })
            r))
    × Carries r (composed_header 5 MsgType.getfile_res 0 2 11) (data_attrs 77 content)
process_srvmsg-sends_example =
    process_srvmsg-sends sys giver (relay 2 asks.0) asked_for 77 0 5 0 offer
      (record offer { tact = 7; fd = some 3 }) content being_served (omega arith) reads_all
      (omega arith)

-- The answers with all the bytes, and with none.
abbrev answer_of :
    (bytes : List ℕ)
    → length bytes ≤ 5
    → (r : MBuf) × Carries r (composed_header 5 MsgType.getfile_res 0 2 11) (data_attrs 77 bytes)
answer_of bytes small =
    let (r, e, c) =
      compose-Carries sys MsgType.getfile_res 2 11
        (word_call MsgAttr.offerid 77
          ∷ record { attype = MsgAttr.data_; len = length bytes; arg = blob bytes }
          ∷ [])
        (data_attrs 77 bytes) (refl, offerid-IsAttr 77, (refl, data-IsAttr bytes, tt))
        (omega (arith, length-put64 host 77)) in
    (r, c)

abbrev given : Header
given = record (composed_header 5 MsgType.getfile_res 0 2 11) { srcid = 1 }

-- Client 2 has sent its request.
abbrev waiting : Client
waiting = record taker { queue = []; requests = asks.0 ∷ [] }

abbrev arrival :
    (bytes : List ℕ) (small : length bytes ≤ 5)
    → (buf : List ℕ) × Arrived sys waiting
        (relay 1 (record (answer_of bytes small).0 { boff = 0 }))
        given
        77
        0
        download
        bytes
        asks.0
        []
        buf
arrival bytes small =
    arrives (λ t. sys) (λ t. sys) (codes "f") content (codes "f") (codes "f.part") 1 2 77 setup 0
      giver taker 0 between (answer_of bytes small).0 bytes (omega arith) (answer_of bytes small).1

writes_all :
    download_write files (record download { tact = 7 }) content
    ≡ (record download { tact = 7 }, true, content)
unfolding download_write write_out
writes_all = refl

abbrev full : MBuf
full = relay 1 (record (answer_of content (omega arith)).0 { boff = 0 })

process_srvmsg-writes_example :
    (r : MBuf) × (size : ℕ) × (process_srvmsg sys waiting full
      ≡ returns (
          enqueue_msg
            (record waiting {
              requests = [];
              transfers = record download { tact = 7; offset = 5 } ∷ [];
              effects = wrote (some (codes "f.part")) content ∷ [];
            })
            r))
    × Carries r (composed_header 5 MsgType.getfile_req 0 1 11) (request_attrs 77 5 size)
    × (size ≤ 65376)
    × (size ≤ missing (record download { tact = 7 }) (length content))
    × ((size ≡ missing (record download { tact = 7 }) (length content)) ⊎ (size ≡ 65376))
process_srvmsg-writes_example =
    process_srvmsg-writes sys waiting full given 77 0 download (record download { tact = 7 })
      content asks.0 [] (arrival content (omega arith)).0 (arrival content (omega arith)).1
      (omega arith) writes_all

abbrev empty : MBuf
empty = relay 1 (record (answer_of [] (omega arith)).0 { boff = 0 })

process_srvmsg-completes_example :
    process_srvmsg sys waiting empty
    ≡ returns (record waiting {
      requests = [];
      transfers = transfer_invalidate (record download { tact = 7 }) ∷ [];
      effects = shown derr none ∷ renamed (some (codes "f.part")) (some (codes "f")) ∷ [];
    })
process_srvmsg-completes_example =
    process_srvmsg-completes sys waiting empty given 77 0 download asks.0 []
      (arrival [] (omega arith)).0 (codes "f") (codes "f.part") (arrival [] (omega arith)).1 refl
      refl refl
