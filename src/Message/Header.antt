-- ===== src/Message/Header.antt =====
-- message.h: the header macros read and write the seven fields of one record.
use frelay.Common.{ℕ, ◌+◌, ◌%◌, ◌^◌, ◌≤◌, ◌≡◌, refl, ◌∙◌, arith}
use frelay.Common.{List, length, drop, write, drop-write}
use frelay.Common.{length-write, slice-write_self, slice-write_before, slice-write_after}
use frelay.Bytes.Order.{
  get16-put16, get32-put32, get64-put64, length-put16, length-put32, length-put64,
}
use frelay.Message.{
  MBuf, host, hdr_get_type, hdr_get_paylen, hdr_get_rfu, hdr_get_ts, hdr_get_srcid, hdr_get_dstid,
  hdr_get_trfid, hdr_set_type, hdr_set_paylen, hdr_set_rfu, hdr_set_ts, hdr_set_srcid,
  hdr_set_dstid, hdr_set_trfid,
}

pub record Header : Type 0 where
  pub type : ℕ
  pub paylen : ℕ
  pub rfu : ℕ
  pub ts : ℕ
  pub srcid : ℕ
  pub dstid : ℕ
  pub trfid : ℕ

unfoldable pub header : MBuf → Header
unfolding hdr_get_type hdr_get_paylen hdr_get_rfu hdr_get_ts hdr_get_srcid hdr_get_dstid
    hdr_get_trfid
header p = record {
  type = hdr_get_type p;
  paylen = hdr_get_paylen p;
  rfu = hdr_get_rfu p;
  ts = hdr_get_ts p;
  srcid = hdr_get_srcid p;
  dstid = hdr_get_dstid p;
  trfid = hdr_get_trfid p;
}

ruleset accesses = (
  arith, slice-write_self, slice-write_before, slice-write_after, get16-put16, get32-put32,
  get64-put64, length-put16, length-put32, length-put64,
)

module _ (p : MBuf) (v : ℕ) (room : 40 ≤ length p.b) where
  header-set_type : header (hdr_set_type p v) ≡ record (header p) { type = v % 2 ^ 16 }
  unfolding header hdr_set_type
  header-set_type = grind accesses

  pub header-set_paylen : header (hdr_set_paylen p v) ≡ record (header p) { paylen = v % 2 ^ 16 }
  unfolding header hdr_set_paylen
  header-set_paylen = grind accesses

  header-set_rfu : header (hdr_set_rfu p v) ≡ record (header p) { rfu = v % 2 ^ 32 }
  unfolding header hdr_set_rfu
  header-set_rfu = grind accesses

  header-set_ts : header (hdr_set_ts p v) ≡ record (header p) { ts = v % 2 ^ 64 }
  unfolding header hdr_set_ts
  header-set_ts = grind accesses

  pub header-set_srcid : header (hdr_set_srcid p v) ≡ record (header p) { srcid = v % 2 ^ 64 }
  unfolding header hdr_set_srcid
  header-set_srcid = grind accesses

  header-set_dstid : header (hdr_set_dstid p v) ≡ record (header p) { dstid = v % 2 ^ 64 }
  unfolding header hdr_set_dstid
  header-set_dstid = grind accesses

  header-set_trfid : header (hdr_set_trfid p v) ≡ record (header p) { trfid = v % 2 ^ 64 }
  unfolding header hdr_set_trfid
  header-set_trfid = grind accesses

-- An operation that leaves the shape of the buffer and everything behind the header alone.
pub record KeepsShape (p q : MBuf) : Type 0 where
  pub bsize_kept : q.bsize ≡ p.bsize
  pub boff_kept : q.boff ≡ p.boff
  pub length_kept : length q.b ≡ length p.b
  pub payload_kept : drop 40 q.b ≡ drop 40 p.b

keeps :
    (p : MBuf) (o : ℕ) (vs : List ℕ)
    → o + length vs ≤ 40
    → KeepsShape p (record p { b = write o vs p.b })
keeps p o vs h = record {
  bsize_kept = refl;
  boff_kept = refl;
  length_kept = length-write o vs p.b;
  payload_kept = drop-write 40 o vs p.b h;
}

module _ (p : MBuf) (v : ℕ) where
  set_type-KeepsShape : KeepsShape p (hdr_set_type p v)
  unfolding hdr_set_type
  set_type-KeepsShape = keeps p 0 _ (omega (arith, length-put16 host v))

  pub set_paylen-KeepsShape : KeepsShape p (hdr_set_paylen p v)
  unfolding hdr_set_paylen
  set_paylen-KeepsShape = keeps p 2 _ (omega (arith, length-put16 host v))

  set_rfu-KeepsShape : KeepsShape p (hdr_set_rfu p v)
  unfolding hdr_set_rfu
  set_rfu-KeepsShape = keeps p 4 _ (omega (arith, length-put32 host v))

  set_ts-KeepsShape : KeepsShape p (hdr_set_ts p v)
  unfolding hdr_set_ts
  set_ts-KeepsShape = keeps p 8 _ (omega (arith, length-put64 host v))

  pub set_srcid-KeepsShape : KeepsShape p (hdr_set_srcid p v)
  unfolding hdr_set_srcid
  set_srcid-KeepsShape = keeps p 16 _ (omega (arith, length-put64 host v))

  set_dstid-KeepsShape : KeepsShape p (hdr_set_dstid p v)
  unfolding hdr_set_dstid
  set_dstid-KeepsShape = keeps p 24 _ (omega (arith, length-put64 host v))

  set_trfid-KeepsShape : KeepsShape p (hdr_set_trfid p v)
  unfolding hdr_set_trfid
  set_trfid-KeepsShape = keeps p 32 _ (omega (arith, length-put64 host v))

-- `q` came from `p` by writes into the header, which now reads `h`.
pub record Edited (p q : MBuf) (h : Header) : Type 0 where
  pub shape : KeepsShape p q
  pub reads : header q ≡ h

pub Edited-start : (p : MBuf) → Edited p p (header p)
Edited-start p = record {
  shape = record { bsize_kept = refl; boff_kept = refl; length_kept = refl; payload_kept = refl };
  reads = refl;
}

KeepsShape-trans : {p q r : MBuf} → KeepsShape p q → KeepsShape q r → KeepsShape p r
KeepsShape-trans a b = record {
  bsize_kept = b.bsize_kept ∙ a.bsize_kept;
  boff_kept = b.boff_kept ∙ a.boff_kept;
  length_kept = b.length_kept ∙ a.length_kept;
  payload_kept = b.payload_kept ∙ a.payload_kept;
}

module _ {p q : MBuf} {h : Header} (v : ℕ) (room : 40 ≤ length p.b) (d : Edited p q h) where
  room_left : 40 ≤ length q.b
  room_left = omega (arith, d.shape.length_kept)

  pub edit_type : Edited p (hdr_set_type q v) (record h { type = v % 2 ^ 16 })
  edit_type = record {
    shape = KeepsShape-trans d.shape (set_type-KeepsShape q v);
    reads = rw (← d.reads) (header-set_type q v room_left);
  }

  pub edit_paylen : Edited p (hdr_set_paylen q v) (record h { paylen = v % 2 ^ 16 })
  edit_paylen = record {
    shape = KeepsShape-trans d.shape (set_paylen-KeepsShape q v);
    reads = rw (← d.reads) (header-set_paylen q v room_left);
  }

  pub edit_rfu : Edited p (hdr_set_rfu q v) (record h { rfu = v % 2 ^ 32 })
  edit_rfu = record {
    shape = KeepsShape-trans d.shape (set_rfu-KeepsShape q v);
    reads = rw (← d.reads) (header-set_rfu q v room_left);
  }

  pub edit_ts : Edited p (hdr_set_ts q v) (record h { ts = v % 2 ^ 64 })
  edit_ts = record {
    shape = KeepsShape-trans d.shape (set_ts-KeepsShape q v);
    reads = rw (← d.reads) (header-set_ts q v room_left);
  }

  pub edit_srcid : Edited p (hdr_set_srcid q v) (record h { srcid = v % 2 ^ 64 })
  edit_srcid = record {
    shape = KeepsShape-trans d.shape (set_srcid-KeepsShape q v);
    reads = rw (← d.reads) (header-set_srcid q v room_left);
  }

  pub edit_dstid : Edited p (hdr_set_dstid q v) (record h { dstid = v % 2 ^ 64 })
  edit_dstid = record {
    shape = KeepsShape-trans d.shape (set_dstid-KeepsShape q v);
    reads = rw (← d.reads) (header-set_dstid q v room_left);
  }

  pub edit_trfid : Edited p (hdr_set_trfid q v) (record h { trfid = v % 2 ^ 64 })
  edit_trfid = record {
    shape = KeepsShape-trans d.shape (set_trfid-KeepsShape q v);
    reads = rw (← d.reads) (header-set_trfid q v room_left);
  }
