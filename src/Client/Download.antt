-- ===== src/Client/Download.antt =====
-- cltmain.c: the steps of one round of a file transfer.
use frelay.Common.{ℕ, ◌+◌, ◌%◌, ◌^◌, ◌≤◌, ◌<◌, ◌≡◌, refl, sym, ap, ◌∙◌, arith}
use frelay.Common.{List, [], ◌∷◌, length, set, none, some}
use frelay.Common.{returns}
use frelay.Message.{MBuf}
use frelay.Message.MsgType
use frelay.Message.Buffer.{composed_header}
use frelay.Message.RoundTrip.{Carries}
use frelay.Transfer.Printing.{download_line-fits}
use frelay.Client.{Client, Sys, enqueue_msg}
use frelay.Client.Dispatch.{process_srvmsg}
use frelay.Client.Replies.{chunk_size}
use frelay.Client.Serving.{request_attrs, data_attrs, process_srvmsg-sends, Served}
use frelay.Client.Receiving.{Arrived, process_srvmsg-data, advanced}
use frelay.Client.Exchange.{relay, relay-Carries, offer_read-Holds, download_write-all}
use frelay.Client.Rounds.{Carries-queued, answer-matches}
use frelay.Client.Setup.{Setup, Between, chunk, bytes_at, length-bytes_at, chunk_size-chunk, took}

module _ (ka kb : ℕ → Sys) (file content name part : List ℕ) (ida idb oid : ℕ)
    (v : Setup ka kb file content name part ida idb oid) where
  -- The request that has reached `a`.
  pub asked :
      (t : ℕ) (a b : Client) (off : ℕ) (w : Between file content name part ida idb oid a b off)
      → Served
          (ka t)
          a
          (relay idb w.q)
          (record w.h { srcid = idb })
          oid
          off
          (chunk content off)
          w.i
          w.o
  asked t a b off w = record {
    ok = w.a_ok;
    carries = rw (id_word) at (relay-Carries idb w.q w.h _ w.asks);
    typed = w.typed;
    oid_small = v.oid_small;
    offset_small = omega (arith, w.inside, v.content_small);
    size_small = ground (arith, w.inside, v.content_small);
    offered = w.offered;
  }
    where
      id_word : idb % 2 ^ 64 ≡ idb
      id_word = omega (arith, v.idb_small)

  -- `a` reads the bytes and answers with them.
  pub serves :
      (t : ℕ) (a b : Client) (off : ℕ) (w : Between file content name part ida idb oid a b off)
      → off < length content
      → (n : ℕ) × (r : MBuf) × (process_srvmsg (ka t) a (relay idb w.q)
          ≡ returns (
              enqueue_msg
                (record a {
                  rbuf = none;
                  transfers = set a.transfers w.i (record w.o {
                    tact = (ka t).now;
                    fd = some n;
                    offset = (off + length (bytes_at content off)) % 2 ^ 64;
                  });
                })
                r))
        × Carries r
            (composed_header (ka t).env.clock MsgType.getfile_res 0 idb w.h.trfid)
            (data_attrs oid (bytes_at content off))
  serves t a b off w more =
      let some_size : 0 < chunk content off = ground arith in
      let small : chunk content off ≤ 65376 = ground arith in
      let room : off + chunk content off ≤ length content = ground arith in
      let sized = length-bytes_at content off w.inside in
      let (n, read) =
        offer_read-Holds (ka t).files file content (record w.o { tact = (ka t).now }) off
          (chunk content off) (v.holds t) w.o_name some_size small room in
      let (r, e, c) =
        process_srvmsg-sends (ka t) a (relay idb w.q) (record w.h { srcid = idb }) oid off
          (chunk content off) w.i w.o (record w.o { tact = (ka t).now; fd = some n })
          (bytes_at content off) (asked t a b off w) some_size
          (read
            ∙ ap
                (λ z.
                  returns
                    (record w.o { tact = (ka t).now; fd = some n }, some (bytes_at content off), z))
                (sym sized))
          (omega arith) in
      (n, r, e, c)

  -- The answer reaches `b`, which waits for it.
  pub arrives :
      (t : ℕ) (a b : Client) (off : ℕ) (w : Between file content name part ida idb oid a b off)
      (r : MBuf) (bytes : List ℕ)
      → length bytes < 2 ^ 16
      → Carries r
          (composed_header (ka t).env.clock MsgType.getfile_res 0 idb w.h.trfid)
          (data_attrs oid bytes)
      → (buf : List ℕ) × Arrived
          (kb t)
          (record b { queue = []; requests = w.q ∷ [] })
          (relay ida (record r { boff = 0 }))
          (record (composed_header (ka t).env.clock MsgType.getfile_res 0 idb w.h.trfid) {
            srcid = ida;
          })
          oid
          w.j
          w.d
          bytes
          w.q
          []
          buf
  arrives t a b off w r bytes small c =
      let c1 =
        rw (id_word) at (relay-Carries ida (record r { boff = 0 }) _ _ (Carries-queued r _ _ c)) in
      let (buf, printed) =
        download_line-fits (kb t).formats (record w.d { tact = (kb t).now }) name w.d_name
          (omega (arith, v.name_short, v.b_sizes t w.d.offset, v.b_sizes t w.d.size)) in
      (
        buf,
        record {
          ok = w.b_ok;
          pending =
              answer-matches w.q (relay ida (record r { boff = 0 })) w.h _ _ _ w.asks c1 w.typed
                refl w.addressed (sym trfid_word);
          carries = c1;
          typed = refl;
          oid_small = v.oid_small;
          small = small;
          known = w.known;
          printed = printed;
        },
      )
    where
      id_word : ida % 2 ^ 64 ≡ ida
      id_word = omega (arith, v.ida_small)

      trfid_word : w.h.trfid % 2 ^ 64 ≡ w.h.trfid
      trfid_word = omega (arith, w.trfid_small)

  -- What `b` makes of the bytes.
  pub writes_them :
      (t : ℕ) (a b : Client) (off : ℕ) (w : Between file content name part ida idb oid a b off)
      (r : MBuf) (buf : List ℕ)
      → off < length content
      → Arrived
          (kb t)
          (record b { queue = []; requests = w.q ∷ [] })
          (relay ida (record r { boff = 0 }))
          (record (composed_header (ka t).env.clock MsgType.getfile_res 0 idb w.h.trfid) {
            srcid = ida;
          })
          oid
          w.j
          w.d
          (bytes_at content off)
          w.q
          []
          buf
      → (r2 : MBuf) × (process_srvmsg
            (kb t)
            (record b { queue = []; requests = w.q ∷ [] })
            (relay ida (record r { boff = 0 }))
          ≡ returns (
              enqueue_msg
                (took b w.j
                  (record w.d {
                    tact = (kb t).now;
                    fd = some w.fd;
                    offset = off + chunk content off;
                  })
                  (some part)
                  (bytes_at content off))
                r2))
        × Carries r2
            (composed_header (kb t).env.clock MsgType.getfile_req 0 ida (kb t).random)
            (request_attrs oid (off + chunk content off) (chunk content (off + chunk content off)))
  writes_them t a b off w r buf more x =
      let small : chunk content off ≤ 65376 = ground arith in
      let room : off + chunk content off ≤ length content = ground (arith, w.inside) in
      let sized = length-bytes_at content off w.inside in
      let some_bytes : 0 < length (bytes_at content off) = ground (arith, sized) in
      let d1 = record w.d { tact = (kb t).now; fd = some w.fd } in
      let next_off : (w.d.offset + length (bytes_at content off)) % 2 ^ 64
          ≡ off + chunk content off =
        omega (arith, sized, w.d_offset, v.content_small, room) in
      let next_size : chunk_size (advanced d1 (length (bytes_at content off)))
          ≡ chunk content ((w.d.offset + length (bytes_at content off)) % 2 ^ 64) =
        chunk_size-chunk content (advanced d1 (length (bytes_at content off))) w.d_size
          (omega (arith, next_off, room)) v.content_small in
      let (r2, e, c) =
        process_srvmsg-data (kb t) _ _ _ oid w.j w.d d1 (bytes_at content off) w.q [] buf x
          some_bytes
          (download_write-all (kb t).files (record w.d { tact = (kb t).now }) w.fd
            (bytes_at content off) w.d_fd (v.writes t (bytes_at content off))) in
      (
        r2,
        e
            ∙ ap
                (λ f. returns (
                  enqueue_msg
                    (took b w.j (record d1 { offset = f }) w.d.partname (bytes_at content off)) r2))
                next_off
            ∙ ap
                (λ p. returns (
                  enqueue_msg
                    (took b w.j (record d1 { offset = off + chunk content off }) p
                      (bytes_at content off))
                    r2))
                w.d_part,
        rw (next_size, next_off, w.d_rid) at c,
      )
