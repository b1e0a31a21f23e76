-- ===== src/Client/Completion.antt =====
-- cltmain.c: a file transfer from the first request to the end.
use frelay.Common.{ℕ, zero, suc, ◌+◌, ◌*◌, ◌%◌, ◌^◌, ◌≤◌, ◌<◌, ◌≡◌, refl, sym, ap, ◌∙◌, arith}
use frelay.Common.{List, [], ◌∷◌, ◌++◌, length, drop, set, none, some, true, ◌==◌}
use frelay.Common.{returns}
use frelay.Common.{drop-drop, take-append-drop, ◌⊎◌, inl, inr}
use mathlib.Core.List.{append_assoc, append-nil}
use frelay.Message.{MBuf}
use frelay.Message.MsgType
use frelay.Message.Buffer.{composed_header}
use frelay.Message.RoundTrip.{Carries}
use frelay.Transfer.{ttype_offer, ttype_download, is_match}
use frelay.Transfer.Printing.{offer_line-fits}
use frelay.Transfer.Matching.{FirstMatch-set, FirstMatch-is_match, is_match-touched}
use frelay.Client.{Client, Sys, Effect, printcon, wrote, renamed, shown, dfin, enqueue_msg}
use frelay.Client.Serving.{request_attrs, process_srvmsg-ends, type_of}
use frelay.Client.Receiving.{process_srvmsg-completes}
use frelay.Client.Exchange.{relay, exchange, exchanges}
use frelay.Client.Rounds.{Carries-queued, sent-request}
use frelay.Client.Setup.{
  Setup, Between, chunk, bytes_at, length-bytes_at, exchange-runs, sent-queued, took,
}
use frelay.Client.Download.{asked, serves, arrives, writes_them}

-- The pieces of the file one behind the other, and the writes of them.
abbrev joined : List (List ℕ) → List ℕ
joined [] = []
joined (c ∷ cs) = c ++ joined cs

abbrev pub writes : List ℕ → List (List ℕ) → List Effect
writes part [] = []
writes part (c ∷ cs) = wrote (some part) c ∷ writes part cs

exchanges-suc :
    (ka kb : ℕ → Sys) (ida idb m t : ℕ) (a b a1 b1 : Client) (z : Client × Client)
    → exchange (ka t) (kb t) ida idb a b ≡ returns (a1, b1)
    → exchanges ka kb ida idb m (t + 1) a1 b1 ≡ returns z
    → exchanges ka kb ida idb (suc m) t a b ≡ returns z
unfolding exchanges
exchanges-suc ka kb ida idb m t a b a1 b1 z e f = rw e f

exchanges-one :
    (ka kb : ℕ → Sys) (ida idb t : ℕ) (a b a1 b1 : Client)
    → exchange (ka t) (kb t) ida idb a b ≡ returns (a1, b1)
    → exchanges ka kb ida idb 1 t a b ≡ returns (a1, b1)
unfolding exchanges
exchanges-one ka kb ida idb t a b a1 b1 e = rw e refl

bytes_at-drop :
    (content : List ℕ) (off : ℕ)
    → bytes_at content off ++ drop (off + chunk content off) content ≡ drop off content
bytes_at-drop content off =
    ap (λ xs. bytes_at content off ++ xs) (sym (drop-drop (chunk content off) off content))
    ∙ take-append-drop (chunk content off) (drop off content)

at_end_or_before : (off n : ℕ) → off ≤ n → (off ≡ n) ⊎ (off < n)
at_end_or_before zero zero h = inl refl
at_end_or_before zero (suc n) h = inr (omega arith)
at_end_or_before (suc off) zero h = absurd (omega arith)
at_end_or_before (suc off) (suc n) h = elim (at_end_or_before off n (omega arith)) [
  | inl e ↦ inl (ap suc e)
  | inr l ↦ inr (omega arith)
]

-- Some number of rounds, at most `n + 1` of them, brings the bytes `rest` to `part`, reports success
-- and gives `part` the name `name`; nothing is left to send or to wait for.
pub record Completed (ka kb : ℕ → Sys) (ida idb : ℕ) (part name rest : List ℕ) (n t : ℕ)
    (a b : Client) : Type 0 where
  pub rounds : ℕ
  chunks : List (List ℕ)
  a_after : Client
  b_after : Client
  runs : exchanges ka kb ida idb rounds t a b ≡ returns (a_after, b_after)
  few : rounds ≤ n + 1
  pub whole : joined chunks ≡ rest
  pub effects :
      b_after.effects
      ≡ ((b.effects ++ writes part chunks) ++ shown dfin none ∷ [])
        ++ renamed (some part) (some name) ∷ []
  nothing_queued : b_after.queue ≡ []
  nothing_pending : b_after.requests ≡ []

-- The end of the effects, behind those of the rounds.
abbrev finished : List ℕ → List ℕ → List Effect → List Effect
finished part name old = (old ++ shown dfin none ∷ []) ++ renamed (some part) (some name) ∷ []

-- The effects of a round and of those behind it.
effects-cons :
    (old : List Effect) (part c : List ℕ) (cs : List (List ℕ))
    → (old ++ wrote (some part) c ∷ []) ++ writes part cs ≡ old ++ writes part (c ∷ cs)
effects-cons old part c cs = append_assoc old (wrote (some part) c ∷ []) (writes part cs)

drop-all : (n : ℕ) (xs : List ℕ) → length xs ≤ n → drop n xs ≡ []
drop-all zero [] h = refl
drop-all zero (x ∷ xs) h = absurd (omega arith)
drop-all (suc n) [] h = refl
drop-all (suc n) (x ∷ xs) h = drop-all n xs (omega arith)

module _ (ka kb : ℕ → Sys) (file content name part : List ℕ) (ida idb oid : ℕ)
    (v : Setup ka kb file content name part ida idb oid) where
  -- The clients after the round.
  Between-next :
      (t : ℕ) (a b : Client) (off : ℕ) (w : Between file content name part ida idb oid a b off)
      (n : ℕ) (r2 : MBuf)
      → off < length content
      → Carries r2
          (composed_header (kb t).env.clock MsgType.getfile_req 0 ida (kb t).random)
          (request_attrs oid (off + chunk content off) (chunk content (off + chunk content off)))
      → Between file content name part ida idb oid
          (record a {
            rbuf = none;
            queue = [];
            transfers = set a.transfers w.i (record w.o {
              tact = (ka t).now;
              fd = some n;
              offset = (off + length (bytes_at content off)) % 2 ^ 64;
            });
          })
          (record (took b w.j
            (record w.d { tact = (kb t).now; fd = some w.fd; offset = off + chunk content off })
            (some part)
            (bytes_at content off)) { queue = record r2 { boff = 0 } ∷ [] })
          (off + chunk content off)
  unfolding is_match
  Between-next t a b off w n r2 more c = record {
    a_ok = w.a_ok;
    b_ok = w.b_ok;
    a_idle = refl;
    q = record r2 { boff = 0 };
    h = composed_header (kb t).env.clock MsgType.getfile_req 0 ida (kb t).random;
    b_asks = refl;
    b_waits = refl;
    asks = Carries-queued r2 _ _ c;
    typed = refl;
    addressed = omega (arith, v.ida_small);
    trfid_small = omega arith;
    i = w.i;
    o = record w.o {
      tact = (ka t).now;
      fd = some n;
      offset = (off + length (bytes_at content off)) % 2 ^ 64;
    };
    offered =
        FirstMatch-set ttype_offer idb oid a.transfers w.i w.o
          (record w.o {
            tact = (ka t).now;
            fd = some n;
            offset = (off + length (bytes_at content off)) % 2 ^ 64;
          })
          w.offered
          (is_match-touched ttype_offer idb oid (ka t).now w.o
            (FirstMatch-is_match ttype_offer idb oid a.transfers w.i w.o w.offered) (v.a_time t));
    o_name = w.o_name;
    j = w.j;
    d = record w.d { tact = (kb t).now; fd = some w.fd; offset = off + chunk content off };
    known =
        FirstMatch-set ttype_download ida oid b.transfers w.j w.d
          (record w.d { tact = (kb t).now; fd = some w.fd; offset = off + chunk content off })
          w.known
          (is_match-touched ttype_download ida oid (kb t).now w.d
            (FirstMatch-is_match ttype_download ida oid b.transfers w.j w.d w.known) (v.b_time t));
    d_rid = w.d_rid;
    d_name = w.d_name;
    d_part = w.d_part;
    fd = w.fd;
    d_fd = refl;
    d_offset = refl;
    d_size = w.d_size;
    inside = ground (arith, w.inside);
  }

  -- One round: `b` gets the bytes from its offset on, and asks for those behind them.
  next_round :
      (t : ℕ) (a b : Client) (off : ℕ)
      → Between file content name part ida idb oid a b off
      → off < length content
      → (a2 : Client) × (b2 : Client) × (exchange (ka t) (kb t) ida idb a b ≡ returns (a2, b2))
        × Between file content name part ida idb oid a2 b2 (off + chunk content off)
        × (b2.effects ≡ b.effects ++ wrote (some part) (bytes_at content off) ∷ [])
  unfolding enqueue_msg
  next_round t a b off w more =
      let small : length (bytes_at content off) ≤ 65376 =
        ground (arith, length-bytes_at content off w.inside) in
      let (n, r, ea, ca) = serves ka kb file content name part ida idb oid v t a b off w more in
      let (buf, x) =
        arrives ka kb file content name part ida idb oid v t a b off w r (bytes_at content off)
          (omega arith) ca in
      let (r2, eb, cb) =
        writes_them ka kb file content name part ida idb oid v t a b off w r buf more x in
      (
        _,
        _,
        exchange-runs (ka t) (kb t) ida idb a b _ _ _ _ w.q (record r { boff = 0 })
            (sent-request b w.q w.b_asks w.b_waits (type_of w.q w.h _ w.asks ∙ w.typed)) ea
            (sent-queued _ r _ _ w.a_idle ca refl) eb,
        Between-next t a b off w n r2 more cb,
        refl,
      )

  -- The last round: `b` has the whole file, and its request for no more bytes ends the transfer.
  last_round :
      (t : ℕ) (a b : Client) (off : ℕ)
      → Between file content name part ida idb oid a b off
      → off ≡ length content
      → (a2 : Client) × (b2 : Client) × (exchange (ka t) (kb t) ida idb a b ≡ returns (a2, b2))
        × (b2.queue ≡ [])
        × (b2.requests ≡ [])
        × (b2.effects ≡ (b.effects ++ shown dfin none ∷ []) ++ renamed (some part) (some name) ∷ [])
  unfolding enqueue_msg printcon
  last_round t a b off w all =
      let no_more : chunk content off ≡ 0 = ground arith in
      let (bufa, printed) =
        offer_line-fits (ka t).formats (record w.o { tact = (ka t).now }) file w.o_name
          (omega (arith, v.file_short, v.a_sizes t w.o.size)) in
      let (r, ea, ca) =
        process_srvmsg-ends (ka t) a (relay idb w.q) (record w.h { srcid = idb }) oid off w.i w.o
          bufa (rw (no_more) at (asked ka kb file content name part ida idb oid v t a b off w))
          printed in
      let (buf, x) =
        arrives ka kb file content name part ida idb oid v t a b off w r [] (omega arith) ca in
      let eb =
        process_srvmsg-completes (kb t) _ _ _ oid w.j w.d w.q [] buf name part x w.d_name w.d_part
          (v.renames t) in
      let done : (w.d.offset == w.d.size) ≡ true = ground (arith, w.d_offset, w.d_size) in
      (
        _,
        _,
        exchange-runs (ka t) (kb t) ida idb a b _ _ _ _ w.q (record r { boff = 0 })
            (sent-request b w.q w.b_asks w.b_waits (type_of w.q w.h _ w.asks ∙ w.typed)) ea
            (sent-queued _ r _ _ w.a_idle ca refl) eb,
        refl,
        refl,
        rw (done, w.d_part, w.d_name) refl,
      )

  Completed-at_end :
      (n t off : ℕ) (a b : Client)
      → Between file content name part ida idb oid a b off
      → off ≡ length content
      → Completed ka kb ida idb part name (drop off content) n t a b
  Completed-at_end n t off a b w all =
      let (a2, b2, e, q, p, f) = last_round t a b off w all in
      record {
        rounds = 1;
        chunks = [];
        a_after = a2;
        b_after = b2;
        runs = exchanges-one ka kb ida idb t a b a2 b2 e;
        few = omega arith;
        whole = sym (drop-all off content (omega arith));
        effects = f ∙ ap (finished part name) (sym (append-nil b.effects));
        nothing_queued = q;
        nothing_pending = p;
      }

  -- A transfer comes to its end, whatever the size of the file: between two clients whose systems
  -- do what they are asked for, with file names of at most 3900 characters, and from any offset on,
  -- there is a number of rounds after which the downloading client has written exactly the bytes of
  -- the file from that offset on, in their order, to the partial file, has reported success and has
  -- given the partial file the name of the file. It has no message left to send and no request that
  -- waits, and the rounds are at most one more than it takes to bring the bytes 65376 at a time.
  pub exchanges_complete :
      (n t off : ℕ) (a b : Client)
      → Between file content name part ida idb oid a b off
      → length content ≤ off + n * 65376
      → Completed ka kb ida idb part name (drop off content) n t a b
  exchanges_complete zero t off a b w room =
      Completed-at_end 0 t off a b w (omega (arith, w.inside))
  exchanges_complete (suc n) t off a b w room =
      elim (at_end_or_before off (length content) w.inside) [
        | inl all ↦ Completed-at_end (suc n) t off a b w all
        | inr more ↦
            (let (a1, b1, e, w1, f1) = next_round t a b off w more in
              let nearer : length content ≤ (off + chunk content off) + n * 65376 = ground arith in
              let c = exchanges_complete n (t + 1) (off + chunk content off) a1 b1 w1 nearer in
              record {
                rounds = suc c.rounds;
                chunks = bytes_at content off ∷ c.chunks;
                a_after = c.a_after;
                b_after = c.b_after;
                runs = exchanges-suc ka kb ida idb c.rounds t a b a1 b1 _ e c.runs;
                few = omega (arith, c.few);
                whole = ap (λ xs. bytes_at content off ++ xs) c.whole ∙ bytes_at-drop content off;
                effects =
                    c.effects
                    ∙ ap (finished part name) (
                        ap (λ old. old ++ writes part c.chunks) f1
                        ∙ effects-cons b.effects part (bytes_at content off) c.chunks);
                nothing_queued = c.nothing_queued;
                nothing_pending = c.nothing_pending;
              })
      ]
