-- ===== src/Server/Stamp.antt =====
-- srvmain.c, `process_msg`: the sender's own id is written into its message.
use frelay.Common.{ℕ, ◌%◌, ◌^◌, ◌≡◌, refl, sym, ap, ◌∙◌, arith}
use frelay.Common.{drop}
use frelay.Common.{true, ◌||◌, if◌then◌else◌, Bool-cases, inl, inr}
use frelay.Message.{MBuf, hdr_get_type, hdr_get_dstid, hdr_set_srcid}
use frelay.Message.Header.{header, header-set_srcid, set_srcid-KeepsShape}
use frelay.Message.Buffer.{IsWf}
use frelay.Server.{Client, is_auth_ok, is_login_ok}
use frelay.Server.Dispatch.{stamp}

pub stamped_header :
    (c : Client) (m : MBuf)
    → IsWf m
    → is_auth_ok c.st ≡ true
    → (stamp c m ≡ hdr_set_srcid m c.id)
      × (header (stamp c m) ≡ record (header m) { srcid = c.id % 2 ^ 64 })
unfolding stamp
stamped_header c m w ok =
    let e : (if is_login_ok c.st || is_auth_ok c.st then hdr_set_srcid m c.id else m)
        ≡ hdr_set_srcid m c.id =
      grind arith in
    (e, ap header e ∙ header-set_srcid m c.id (omega (arith, w.sized, w.least)))

pub stamp-kept :
    (c : Client) (m : MBuf) → (drop 40 (stamp c m).b ≡ drop 40 m.b) × ((stamp c m).bsize ≡ m.bsize)
unfolding stamp
stamp-kept c m =
    let k = set_srcid-KeepsShape m c.id in
    elim (Bool-cases (is_login_ok c.st || is_auth_ok c.st)) [
      | inl known ↦ (rw known k.payload_kept, rw known k.bsize_kept)
      | inr unknown ↦ (rw unknown refl, rw unknown refl)
    ]

pub header-boff : (m : MBuf) (o : ℕ) → header (record m { boff = o }) ≡ header m
unfolding header
header-boff m o = refl

pub stamp-IsWf : (c : Client) (m : MBuf) → IsWf m → IsWf (stamp c m)
unfolding stamp
stamp-IsWf c m w =
    let k = set_srcid-KeepsShape m c.id in
    elim (Bool-cases (is_login_ok c.st || is_auth_ok c.st)) [
      | inl known ↦ rw known (record {
        sized = k.length_kept ∙ w.sized ∙ sym k.bsize_kept;
        least = omega (arith, w.least, k.bsize_kept);
        most = omega (arith, w.most, k.bsize_kept);
      })
      | inr unknown ↦ rw unknown w
    ]

-- Neither the type nor the destination changes.
pub stamp-addressed :
    (c : Client) (m : MBuf)
    → IsWf m
    → (hdr_get_type (stamp c m) ≡ hdr_get_type m) × (hdr_get_dstid (stamp c m) ≡ hdr_get_dstid m)
unfolding stamp header
stamp-addressed c m w =
    let h = header-set_srcid m c.id (omega (arith, w.sized, w.least)) in
    elim (Bool-cases (is_login_ok c.st || is_auth_ok c.st)) [
      | inl known ↦ (rw known (ap (λ x. x.type) h), rw known (ap (λ x. x.dstid) h))
      | inr unknown ↦ (rw unknown refl, rw unknown refl)
    ]
