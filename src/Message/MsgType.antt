-- ===== src/Message/MsgType.antt =====
-- `enum MSG_TYPE` of message.h.
use frelay.Common.{ℕ}

abbrev pub login_req : ℕ
login_req = 0x0011

abbrev pub login_res : ℕ
login_res = 0x0012

abbrev login_err : ℕ
login_err = 0x001a

abbrev pub auth_req : ℕ
auth_req = 0x0021

abbrev pub auth_res : ℕ
auth_res = 0x0022

abbrev pub auth_err : ℕ
auth_err = 0x002a

abbrev pub logout_req : ℕ
logout_req = 0x0031

abbrev pub logout_res : ℕ
logout_res = 0x0032

abbrev logout_err : ℕ
logout_err = 0x003a

abbrev pub register_req : ℕ
register_req = 0x0041

abbrev pub register_res : ℕ
register_res = 0x0042

abbrev register_err : ℕ
register_err = 0x004a

abbrev pub drop_req : ℕ
drop_req = 0x0051

abbrev pub drop_res : ℕ
drop_res = 0x0052

abbrev drop_err : ℕ
drop_err = 0x005a

abbrev pub peerlist_req : ℕ
peerlist_req = 0x00a1

abbrev pub peerlist_res : ℕ
peerlist_res = 0x00a2

abbrev peerlist_err : ℕ
peerlist_err = 0x00aa

abbrev pub offer_ind : ℕ
offer_ind = 0x0110

abbrev pub offer_req : ℕ
offer_req = 0x0111

abbrev pub offer_res : ℕ
offer_res = 0x0112

abbrev pub offer_err : ℕ
offer_err = 0x011a

abbrev pub getfile_req : ℕ
getfile_req = 0x0121

abbrev pub getfile_res : ℕ
getfile_res = 0x0122

abbrev pub getfile_err : ℕ
getfile_err = 0x012a

abbrev pub ping_ind : ℕ
ping_ind = 0x0200

abbrev pub ping_req : ℕ
ping_req = 0x0201

abbrev pub ping_res : ℕ
ping_res = 0x0202

abbrev pub ping_err : ℕ
ping_err = 0x020a
