-- ===== src/Message/Names.antt =====
-- message.c: `mtype2str` and `mclass2str`, for messages on the console and in the log.
use frelay.Common.{ℕ, List, codes, ◌==◌, if◌then◌else◌}
use Prim.Native.Nat.{bit_and}
use frelay.Message.{mtype_get_class, mclass_ind, mclass_req, mclass_res, mclass_err}

unfoldable pub mtype2str : ℕ → List ℕ
mtype2str mtype =
    let t = bit_and mtype 0xfff0 in
    if t == 0x0040
    then codes "REGISTER"
    else if t == 0x0010
    then codes "LOGIN"
    else if t == 0x0020
    then codes "AUTH"
    else if t == 0x0030
    then codes "LOGOUT"
    else if t == 0x00a0
    then codes "PEERLIST"
    else if t == 0x0110
    then codes "OFFER"
    else if t == 0x0120
    then codes "GETFILE"
    else if t == 0x0200
    then codes "PING"
    else codes "UNKNOWN"

unfoldable pub mclass2str : ℕ → List ℕ
mclass2str mtype =
    let c = mtype_get_class mtype in
    if c == mclass_ind
    then codes "IND"
    else if c == mclass_req
    then codes "REQ"
    else if c == mclass_res
    then codes "RES"
    else if c == mclass_err
    then codes "ERR"
    else codes "INVALID"
