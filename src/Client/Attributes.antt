-- ===== src/Client/Attributes.antt =====
-- cltmain.c, `process_srvmsg`: how the cases read the attributes of a message and compose another.
use frelay.Common.{ℕ, ◌+◌, List, length, slice, set}
use frelay.Common.{Option, none, some, leb, ◌==◌, if◌then◌else◌}
use frelay.Common.{if_some, Outcome, returns, faults, ◌>>=◌}
use frelay.Bytes.{get64}
use frelay.Message.MsgAttr
use frelay.Message.{MBuf, Attr, null, ui64, host, mbuf_getnextattrib, mbuf_compose, string_at}
use frelay.Message.RoundTrip.{Call, add_all}
use frelay.Status.{sc_ok}
use frelay.Transfer.{Transfer}
use frelay.Client.{Client, Sys}

-- The local variables `mp` and `status` at the end of the `switch`.
pub record Turn : Type 0 where
  pub client : Client
  pub mp : Option MBuf
  pub status : ℕ

abbrev pub quiet : Client → Outcome Turn
quiet s = returns (record { client = s; mp = none; status = sc_ok })

abbrev pub answer : Client → MBuf → Outcome Turn
answer s m = returns (record { client = s; mp = some m; status = sc_ok })

abbrev pub refuse : Client → ℕ → Outcome Turn
refuse s ec = returns (record { client = s; mp = none; status = ec })

-- `0 == mbuf_getnextattrib( … )` with an attribute of the wanted type.
unfoldable pub wanted : ℕ → MBuf → Option Attr
wanted attype m =
    if_some ((mbuf_getnextattrib m).0) none (λ x. if x.at == attype then some x else none)

-- The message after that call, whatever the type was.
unfoldable pub after : MBuf → MBuf
after m = (mbuf_getnextattrib m).1

-- `NTOH64( *(uint64_t *)av )`; eight bytes are read, whatever the attribute's length is.
unfoldable pub word_at : MBuf → ℕ → Outcome ℕ
word_at m o = if leb (o + 8) (length m.b) then returns (get64 host (slice o 8 m.b)) else faults

-- A word that is 0 where the next attribute is of another type.
unfoldable pub word_or_zero : ℕ → MBuf → Outcome ℕ
word_or_zero attype m = if_some (wanted attype m) (returns 0) (λ x. word_at m x.av)

-- The text of the next attribute, if it is a notice.
unfoldable pub notice_text : MBuf → Outcome (Option (List ℕ))
notice_text m =
    if_some (wanted MsgAttr.notice m) (returns none)
      (λ x. string_at m x.av >>= λ text. returns (some text))

-- A message to `dstid`, with the attributes of the calls of `mbuf_addattrib`.
unfoldable pub compose : Sys → ℕ → ℕ → ℕ → List Call → Outcome MBuf
compose k type dstid trfid calls =
    mbuf_compose k.env none type 0 dstid trfid >>= λ p. add_all k.env p calls

abbrev pub word_call : ℕ → ℕ → Call
word_call attype v = record { attype = attype; len = 8; arg = ui64 v }

abbrev pub ok_call : Call
ok_call = record { attype = MsgAttr.ok; len = 0; arg = null }

-- The transfer at a position is changed through its pointer.
unfoldable pub put_transfer : Client → ℕ → Transfer → Client
put_transfer s i t = record s { transfers = set s.transfers i t }
