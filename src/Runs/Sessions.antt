-- ===== src/Runs/Sessions.antt =====
-- cltmain.c: a client that logs in with a key, at the response to its authentication.
use frelay.Common.{
  arith, ℕ, ◌≡◌, ◌⊎◌, refl, ◌+◌, ◌/◌, ◌%◌, List, [], ◌∷◌, ◌++◌, length, replicate, slice,
}
use frelay.Common.{All, false, none, some, if_some, ◌>>=◌, Outcome, returns, faults, dies}
use frelay.Bytes.{get16, get64, load, hton16, hton64, swap2, swap8, of_low_bytes}
use frelay.Message.MsgType
use frelay.Message.{
  MBuf, hdr_get_type, hdr_get_srcid, hdr_get_dstid, hdr_get_trfid, mbuf_resetgetattrib,
  mbuf_getnextattrib, mclass_is_res, mtype_get_class, mclass_to_res, string_at,
}
use frelay.Client.{
  shown, plst, Client, clt_login_ok, clt_auth_ok, answers, match_pending_req, note, printcon,
}
use frelay.Client.Attributes.{wanted, after, notice_text, word_at}
use frelay.Client.Replies.{auth_res, with_notice, list_peers}
use frelay.Client.Dispatch.{process_srvmsg, respond, handle, serve, settle}
use frelay.Client.Pending.{Fits, Taken, match_pending_req-Taken}
use frelay.Client.Stream.{Gone, write_each-Gone}
use frelay.Client.Session.{Handled, process_srvmsg-Handled}
use frelay.Message.MsgAttr
use frelay.Client.Loops.{attribute_loops_end}
use frelay.Client.Peers.{offer_attr, offer_attrs}
use frelay.Runs.Transfers.{giver, sys, files, download}

abbrev word : ℕ → List ℕ
word n = replicate 7 0 ++ n ∷ []

abbrev message : ℕ → ℕ → List ℕ → MBuf
message type trfid payload = record {
  bsize = 40 + length payload;
  boff = 40 + length payload;
  b =
      type / 256
      ∷ type % 256
      ∷ 0
      ∷ length payload
      ∷ (replicate 12 0 ++ (word 0 ++ (word 0 ++ (word trfid ++ payload))));
}

-- An older request, the one that is answered, and the response with its attribute OK.
abbrev other : MBuf
other = message MsgType.peerlist_req 4 []

abbrev question : MBuf
question = message MsgType.auth_req 5 []

abbrev response : MBuf
response = message MsgType.auth_res 5 (0 ∷ 65 ∷ 0 ∷ 0 ∷ 0 ∷ 0 ∷ 0 ∷ 0 ∷ [])

abbrev known : Client
known = record giver { st = clt_login_ok; requests = other ∷ question ∷ [] }

abbrev client_of : Outcome Client → Client
client_of (returns s) = s
client_of dies = known
client_of faults = known

abbrev logged_in : Client
logged_in = client_of (process_srvmsg sys known response)

logged_in-runs :
    (process_srvmsg sys known response ≡ returns logged_in) × (logged_in.st ≡ clt_auth_ok)
unfolding get16 get64 load hton16 hton64 swap2 swap8 of_low_bytes slice hdr_get_type hdr_get_srcid
    hdr_get_dstid hdr_get_trfid mbuf_resetgetattrib mbuf_getnextattrib mclass_is_res mtype_get_class
    mclass_to_res answers match_pending_req note printcon wanted after notice_text auth_res
    with_notice process_srvmsg respond handle serve settle
logged_in-runs = (refl, refl)

process_srvmsg-Handled_example : Handled response known logged_in
process_srvmsg-Handled_example =
    process_srvmsg-Handled sys known response logged_in logged_in-runs.0

match_pending_req-Taken_example :
    Taken response (other ∷ question ∷ []) (match_pending_req response (other ∷ question ∷ []))
    ⊎ ((match_pending_req response (other ∷ question ∷ []) ≡ (none, other ∷ question ∷ []))
        × All (λ q. ¬ Fits q response) (other ∷ question ∷ []))
match_pending_req-Taken_example = match_pending_req-Taken response (other ∷ question ∷ [])

attribute_loops_end_example :
    (offer_attrs 48 files false (download, []) response
      ≡ if_some (mbuf_getnextattrib response).0 (returns (download, [])) (λ x.
        offer_attr files false (download, []) response x >>= λ d1.
        offer_attrs (after response).bsize files false d1 (after response)))
    × (list_peers 48 known response
        ≡ if_some (wanted MsgAttr.peerid response) (returns known) (λ x.
          if_some (wanted MsgAttr.peername (after response)) (returns known) (λ y.
            word_at response x.av >>= λ id. string_at response y.av >>= λ name.
            list_peers
              (after (after response)).bsize
              (note (shown plst (some name)) known)
              (after (after response)))))
attribute_loops_end_example = attribute_loops_end files false (download, []) known response

-- Two messages wait, and the socket takes 3 bytes, then all that is left, then 5.
abbrev sender : Client
sender = record giver { queue = record question { boff = 0 } ∷ record other { boff = 0 } ∷ [] }

write_each-Gone_example : Gone (3 ∷ 100 ∷ 5 ∷ []) sender
write_each-Gone_example =
    write_each-Gone (3 ∷ 100 ∷ 5 ∷ []) sender ((refl, omega arith), ((refl, omega arith), tt))
