-- ===== src/Message/Cursor.antt =====
-- message.c, `mbuf_getnextattrib`: reading a message whose remaining attributes are known.
use frelay.Common.{ℕ, ◌+◌, ◌-◌, ◌≤◌, ◌≡◌, refl, ap, ◌∙◌, arith}
use frelay.Common.{List, ◌∷◌, ◌++◌, length, drop, replicate, slice, some, length-drop}
use frelay.Common.{length-append}
use frelay.Message.{MBuf, roundup8, mbuf_getnextattrib}
use frelay.Message.Append.{length-attr_head}
use frelay.Message.{attr_head}
use frelay.Message.Decode.{
  payload_bytes, IsWire, getnextattrib-found, value_read, fits, after_value, regroup, padded,
}

-- The attributes from the read offset to the end of the buffer.
pub record AtAttrs (p : MBuf) (attrs : List (ℕ × List ℕ)) : Type 0 where
  pub sized : length p.b ≡ p.bsize
  pub inside : p.boff ≤ p.bsize
  pub rest : drop p.boff p.b ≡ payload_bytes attrs

-- What one call gives: the head of the attributes, and a message at the others.
pub record Next (p : MBuf) (t : ℕ) (v : List ℕ) (more : List (ℕ × List ℕ)) : Type 0 where
  pub found : (mbuf_getnextattrib p).0 ≡ some (record { at = t; al = length v; av = p.boff + 8 })
  pub value : slice (p.boff + 8) (length v) p.b ≡ v
  pub in_bounds : p.boff + 8 + length v ≤ length p.b
  pub at_more : AtAttrs (mbuf_getnextattrib p).1 more

pub getnextattrib-Next :
    (p : MBuf) (t : ℕ) (v : List ℕ) (more : List (ℕ × List ℕ))
    → AtAttrs p ((t, v) ∷ more)
    → IsWire (t, v)
    → Next p t v more
getnextattrib-Next p t v more a w =
    let r : ℕ = roundup8 (length v) in
    let zs : List ℕ = replicate (r - length v) 0 in
    let rest = zs ++ payload_bytes more in
    let here = a.rest ∙ regroup (attr_head t (length v)) v zs (payload_bytes more) in
    let step = getnextattrib-found p t v rest a.sized w.0 w.1 here in
    record {
      found = ap (λ x. x.0) step;
      value = value_read p t v rest a.sized w.0 w.1 here;
      in_bounds = omega (arith, fits p t v rest a.sized w.0 w.1 here, a.sized);
      at_more = rw step (record {
        sized = a.sized;
        inside = omega (
          arith,
          ap length here,
          length-drop p.boff p.b,
          length-append (attr_head t (length v)) (v ++ rest),
          length-append v rest,
          length-append zs (payload_bytes more),
          length-attr_head t (length v),
          padded v,
          a.sized,
        );
        rest =
            after_value p t v rest a.sized w.0 w.1 here r zs (payload_bytes more) refl (padded v);
      });
    }
