-- ===== src/Message/MsgAttr.antt =====
-- `enum MSG_ATTRIB` of message.h.
use frelay.Common.{ℕ}

abbrev pub invalid : ℕ
invalid = 0x0000

abbrev pub username : ℕ
username = 0x0001

abbrev pub pubkey : ℕ
pubkey = 0x0002

abbrev pub challenge : ℕ
challenge = 0x0003

abbrev pub digest : ℕ
digest = 0x0004

abbrev pub signature : ℕ
signature = 0x0005

abbrev pub peerid : ℕ
peerid = 0x0010

abbrev pub peername : ℕ
peername = 0x0011

abbrev pub offerid : ℕ
offerid = 0x0021

abbrev pub filename : ℕ
filename = 0x0022

abbrev pub size : ℕ
size = 0x0023

abbrev pub offset : ℕ
offset = 0x0025

abbrev pub data_ : ℕ
data_ = 0x0026

abbrev pub ok : ℕ
ok = 0x0041

abbrev pub error : ℕ
error = 0x0042

abbrev pub notice : ℕ
notice = 0x0043
