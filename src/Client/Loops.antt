-- ===== src/Client/Loops.antt =====
-- cltmain.c: the loops over the attributes of a message come to their end.
use frelay.Common.{ℕ, zero, suc, ◌+◌, ◌≤◌, ◌≡◌, refl, sym, ap, ◌∙◌, arith}
use frelay.Common.{Option, none, some, Option-cases, Bool, inl, inr, if_some}
use frelay.Common.{returns, ◌>>=◌, >>=_cong, if_some_cong}
use frelay.Message.{MBuf, Attr, mbuf_getnextattrib, string_at}
use frelay.Message.MsgAttr
use frelay.Message.Decode.{getnextattrib_in_bounds}
use frelay.Transfer.FileAccess.{FileSys}
use frelay.Client.{Client, note, shown, plst}
use frelay.Client.Attributes.{wanted, after, word_at}
use frelay.Client.Peers.{Offer, offer_attr, offer_attrs}
use frelay.Client.Replies.{list_peers}

-- Where an attribute is found, there is one less byte at least to go.
shorter :
    (fuel : ℕ) (m : MBuf) (x : Attr)
    → (mbuf_getnextattrib m).0 ≡ some x
    → m.bsize ≤ suc fuel + m.boff
    → (mbuf_getnextattrib m).1.bsize ≤ fuel + (mbuf_getnextattrib m).1.boff
shorter fuel m x e enough = let b = getnextattrib_in_bounds m x e in omega (arith, b.0, b.2, b.3)

ended : (m : MBuf) → m.bsize ≤ m.boff → (mbuf_getnextattrib m).0 ≡ none
unfolding mbuf_getnextattrib
ended m h = ground arith

offer_attrs-more :
    (fuel : ℕ) (k : FileSys) (no_clobber : Bool) (d : Offer) (m : MBuf)
    → m.bsize ≤ fuel + m.boff
    → offer_attrs fuel k no_clobber d m ≡ offer_attrs (suc fuel) k no_clobber d m
unfolding offer_attrs
offer_attrs-more zero k no_clobber d m enough = rw (ended m (omega arith)) refl
offer_attrs-more (suc fuel) k no_clobber d m enough = elim (Option-cases (mbuf_getnextattrib m).0) [
  | inl e ↦ rw e refl
  | inr (x, e) ↦ rw e (
      >>=_cong (offer_attr k no_clobber d m x) (λ d1.
        offer_attrs-more fuel k no_clobber d1 (mbuf_getnextattrib m).1 (shorter fuel m x e enough)))
]

wanted-found :
    (t : ℕ) (m : MBuf) (y : Attr)
    → wanted t m ≡ some y
    → (x : Attr) × ((mbuf_getnextattrib m).0 ≡ some x)
unfolding wanted
wanted-found t m y e = elim (Option-cases (mbuf_getnextattrib m).0) [
  | inl gone ↦ absurd (none≢some (sym (rw gone refl) ∙ e))
  | inr found ↦ found
]
  where
    none≢some : {y : Attr} → Path (Option Attr) none (some y) → ⊥
    none≢some h = cc

wanted-ended : (t : ℕ) (m : MBuf) → m.bsize ≤ m.boff → wanted t m ≡ none
unfolding wanted
wanted-ended t m h = rw (ended m h) refl

list_peers-more :
    (fuel : ℕ) (s : Client) (m : MBuf)
    → m.bsize ≤ fuel + m.boff
    → list_peers fuel s m ≡ list_peers (suc fuel) s m
unfolding list_peers after
list_peers-more zero s m enough = rw (wanted-ended MsgAttr.peerid m (omega arith)) refl
list_peers-more (suc fuel) s m enough = elim (Option-cases (wanted MsgAttr.peerid m)) [
  | inl e ↦ rw e refl
  | inr (x, e) ↦ elim (Option-cases (wanted MsgAttr.peername (after m))) [
    | inl f ↦ rw (e, f) refl
    | inr (y, f) ↦
        (let (x1, e1) = wanted-found MsgAttr.peerid m x e in
          let (y1, f1) = wanted-found MsgAttr.peername (after m) y f in
          let once = shorter fuel m x1 e1 enough in
          let twice = shorter fuel (after m) y1 f1 (omega (arith, once)) in
          rw (e, f)
            (>>=_cong (word_at m x.av) (λ id. >>=_cong (string_at m y.av) (λ name.
              list_peers-more fuel (note (shown plst (some name)) s) (after (after m)) twice))))
  ]
]

-- A round does not change the size.
bsize_kept :
    (m : MBuf) (x : Attr)
    → (mbuf_getnextattrib m).0 ≡ some x
    → (mbuf_getnextattrib m).1.bsize ≡ m.bsize
bsize_kept m x e = (getnextattrib_in_bounds m x e).3

-- The loops over the attributes of an offer and of a peer list come to their end, whatever the
-- message holds: each does what its body says and goes on with what follows, as often as there are
-- attributes, and is never cut short.
pub attribute_loops_end :
    (k : FileSys) (no_clobber : Bool) (d : Offer) (s : Client) (m : MBuf)
    → (offer_attrs m.bsize k no_clobber d m
        ≡ if_some (mbuf_getnextattrib m).0 (returns d) (λ x. offer_attr k no_clobber d m x >>= λ d1.
            offer_attrs (after m).bsize k no_clobber d1 (after m)))
      × (list_peers m.bsize s m
          ≡ if_some (wanted MsgAttr.peerid m) (returns s) (λ x.
            if_some (wanted MsgAttr.peername (after m)) (returns s) (λ y. word_at m x.av >>= λ id.
            string_at m y.av >>= λ name.
            list_peers
              (after (after m)).bsize
              (note (shown plst (some name)) s)
              (after (after m)))))
unfolding offer_attrs list_peers after
attribute_loops_end k no_clobber d s m = (
  offer_attrs-more m.bsize k no_clobber d m (omega arith)
      ∙ if_some_cong (mbuf_getnextattrib m).0 (returns d) (λ x e.
        ap (λ n. offer_attr k no_clobber d m x >>= λ d1. offer_attrs n k no_clobber d1 (after m))
          (sym (bsize_kept m x e))),
  list_peers-more m.bsize s m (omega arith)
      ∙ if_some_cong (wanted MsgAttr.peerid m) (returns s) (λ x e.
        if_some_cong (wanted MsgAttr.peername (after m)) (returns s) (λ y f.
          let (x1, e1) = wanted-found MsgAttr.peerid m x e in
          let (y1, f1) = wanted-found MsgAttr.peername (after m) y f in
          ap
            (λ n. word_at m x.av >>= λ id. string_at m y.av >>= λ name.
              list_peers n (note (shown plst (some name)) s) (after (after m)))
            (sym (bsize_kept (after m) y1 f1 ∙ bsize_kept m x1 e1)))),
)
