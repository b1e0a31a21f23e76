-- ===== src/Client/Pending.antt =====
-- cltmain.c, `match_pending_req`, `dequeue_msg`, `upkeep_pending`: requests that wait for a response.
use frelay.Common.{◌≡◌, refl, ap, List, [], ◌∷◌, ◌++◌, All, Option, none, some, true, false}
use frelay.Common.{◌⊎◌, inl, inr, Bool-cases}
use frelay.Common.{arith}
use Prim.Native.Nat.{bit_and, bit_or}
use frelay.Message.{MBuf, hdr_get_type, hdr_get_srcid, hdr_get_dstid, hdr_get_trfid, mclass_to_res}
use frelay.Client.{answers, match_pending_req}

-- What makes `m` the response to the request `q`: it comes from where the request went, is of the
-- same transaction, and its type is the request's with the class of a response.
abbrev pub Fits : MBuf → MBuf → Type 0
Fits q m =
    (hdr_get_dstid q ≡ hdr_get_srcid m)
    × (hdr_get_trfid q ≡ hdr_get_trfid m)
    × (bit_or (bit_and (hdr_get_type q) 0xfff0) 2 ≡ hdr_get_type m)

answers-Fits : (q m : MBuf) → answers q m ≡ true → Fits q m
unfolding answers mclass_to_res
answers-Fits q m h = (grind arith, grind arith, grind arith)

answers-misfit : (q m : MBuf) → answers q m ≡ false → ¬ Fits q m
unfolding answers mclass_to_res
answers-misfit q m h (d, t, y) = grind arith

-- The first request of `l` that `m` answers is taken out.
pub record Taken (m : MBuf) (l : List MBuf) (r : Option MBuf × List MBuf) : Type 0 where
  pub before : List MBuf
  pub taken : MBuf
  pub behind : List MBuf
  pub listed : l ≡ before ++ taken ∷ behind
  pub left : r.1 ≡ before ++ behind
  pub given : r.0 ≡ some taken
  pub fits : Fits taken m
  pub first : All (λ q. ¬ Fits q m) before

-- A response is matched with the first request that went to its source in the same transaction and
-- whose type, turned into that of a response, is its own: that request, and no other, is taken off
-- the list. If it answers none, nothing is found and the list stays as it is.
pub match_pending_req-Taken :
    (m : MBuf) (l : List MBuf)
    → Taken m l (match_pending_req m l)
      ⊎ ((match_pending_req m l ≡ (none, l)) × All (λ q. ¬ Fits q m) l)
unfolding match_pending_req
match_pending_req-Taken m [] = inr (refl, tt)
match_pending_req-Taken m (q ∷ more) = elim (Bool-cases (answers q m)) [
  | inl hit ↦ inl (record {
    before = [];
    taken = q;
    behind = more;
    listed = refl;
    left = rw hit refl;
    given = rw hit refl;
    fits = answers-Fits q m hit;
    first = tt;
  })
  | inr miss ↦ elim (match_pending_req-Taken m more) [
    | inl t ↦ inl (record {
      before = q ∷ t.before;
      taken = t.taken;
      behind = t.behind;
      listed = ap (λ l. q ∷ l) t.listed;
      left = rw miss (ap (λ l. q ∷ l) t.left);
      given = rw miss t.given;
      fits = t.fits;
      first = (answers-misfit q m miss, t.first);
    })
    | inr (e, none_fits) ↦ inr (rw (miss, e) refl, (answers-misfit q m miss, none_fits))
  ]
]
