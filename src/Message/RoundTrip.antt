-- ===== src/Message/RoundTrip.antt =====
-- message.c: a message that is composed attribute by attribute is read back as it was written.
use frelay.Common.{ℕ, zero, suc, ◌+◌, ◌-◌, ◌%◌, ◌^◌, ◌≤◌, ◌<◌, ◌≡◌, refl, sym, ap, ◌∙◌, arith}
use frelay.Common.{List, [], ◌∷◌, ◌++◌, length, drop, All, length-append, none}
use frelay.Common.{Outcome, returns, ◌>>=◌}
use mathlib.Core.List.{append_assoc, append-nil}
use frelay.Bytes.{put64}
use frelay.Bytes.Order.{length-put64}
use frelay.Status.{sc_msgstr, length-sc_msgstr}
use frelay.Message.MsgAttr
use frelay.Message.{
  MBuf, Env, AttrArg, ui64, str, AvType, avtype_ui64, avtype_str, host, mbuf_resetgetattrib,
  mbuf_addattrib, mbuf_compose, mbuf_to_error_response, hdr_get_type, hdr_set_type, mclass_to_res,
  mclass_to_err, avtype_of, attr_value,
}
use frelay.Message.Header.{Header, header, Edited-start, edit_type}
use frelay.Message.Buffer.{
  IsWf, IsBare, Edited-IsWf, response_header, mbuf_to_response-IsBare, composed_header,
  mbuf_compose-IsBare,
}
use frelay.Message.Append.{
  IsAttr, attr_bytes, attr_size, appended, appended-Extends, mbuf_addattrib-appended,
}
use frelay.Message.Decode.{read_attrs, payload_bytes, IsWire, read_attrs-payload}

-- A message whose payload is the given attributes, with nothing else in the buffer.
pub record Carries (p : MBuf) (h : Header) (attrs : List (ℕ × List ℕ)) : Type 0 where
  pub wf : IsWf p
  pub rewound : p.boff ≡ 0
  pub reads : header p ≡ record h { paylen = (p.bsize - 40) % 2 ^ 16 }
  pub payload : drop 40 p.b ≡ payload_bytes attrs

abbrev pub attrs_size : List (ℕ × List ℕ) → ℕ
attrs_size [] = 0
attrs_size ((t, v) ∷ more) = attr_size v + attrs_size more

drop_all {ℓ} : {A : Type ℓ} (n : ℕ) (xs : List A) → length xs ≤ n → drop n xs ≡ []
drop_all zero [] h = refl
drop_all zero (x ∷ xs) h = absurd (omega arith)
drop_all (suc n) [] h = refl
drop_all (suc n) (x ∷ xs) h = drop_all n xs (omega arith)

pub IsBare-Carries : (p : MBuf) (h : Header) → h.paylen ≡ 0 → IsBare p h → Carries p h []
IsBare-Carries p h z c = record {
  wf = c.wf;
  rewound = c.rewound;
  reads = c.reads ∙ ground (arith, c.empty);
  payload = drop_all 40 p.b (omega (arith, c.empty, c.wf.sized));
}

payload-snoc :
    (attrs : List (ℕ × List ℕ)) (t : ℕ) (v : List ℕ)
    → payload_bytes (attrs ++ (t, v) ∷ []) ≡ payload_bytes attrs ++ attr_bytes t v
payload-snoc [] t v = append-nil (attr_bytes t v)
payload-snoc ((s, u) ∷ more) t v =
    ap (λ x. attr_bytes s u ++ x) (payload-snoc more t v)
    ∙ sym (append_assoc (attr_bytes s u) (payload_bytes more) (attr_bytes t v))

-- One call of `mbuf_addattrib` puts one attribute behind those that are there.
pub mbuf_addattrib-Carries :
    (e : Env) (p : MBuf) (h : Header) (attrs : List (ℕ × List ℕ)) (t len : ℕ) (arg : AttrArg)
    (v : List ℕ)
    → Carries p h attrs
    → IsAttr t len arg v
    → p.bsize + attr_size v ≤ 65440
    → (q : MBuf) × (mbuf_addattrib e p t len arg ≡ returns q)
      × Carries q h (attrs ++ (t, v) ∷ [])
      × (q.bsize ≡ p.bsize + attr_size v)
mbuf_addattrib-Carries e p h attrs t len arg v c a room =
    let x = appended-Extends p t v c.wf room in
    (
      appended p t v,
      mbuf_addattrib-appended e p t len arg v c.wf (omega (arith, c.rewound)) a room,
      record {
        wf = x.wf;
        rewound = x.boff_kept ∙ c.rewound;
        reads = x.header_kept ∙ ground (arith, c.reads);
        payload =
            x.payload ∙ ap (λ y. y ++ attr_bytes t v) c.payload ∙ sym (payload-snoc attrs t v);
      },
      x.new_size,
    )

-- The types that `mbuf_addattrib` knows fit their word.
known_small : (t len : ℕ) (k : AvType) (n : ℕ) → avtype_of t len ≡ returns (k, n) → t < 2 ^ 16
unfolding avtype_of
known_small t len k n e = ground arith

-- A call of `mbuf_addattrib`, and the attribute that it stands for.
pub record Call : Type 0 where
  pub attype : ℕ
  pub len : ℕ
  pub arg : AttrArg

abbrev pub Encode : List Call → List (ℕ × List ℕ) → Type 0
Encode [] [] = Unit {0}
Encode [] (a ∷ attrs) = ⊥
Encode (c ∷ calls) [] = ⊥
Encode (c ∷ calls) ((t, v) ∷ attrs) =
    (t ≡ c.attype) × IsAttr c.attype c.len c.arg v × Encode calls attrs

unfoldable pub add_all : Env → MBuf → List Call → Outcome MBuf
add_all e p [] = returns p
add_all e p (c ∷ calls) = do q ← mbuf_addattrib e p c.attype c.len c.arg; add_all e q calls

Encode-IsWire :
    (calls : List Call) (attrs : List (ℕ × List ℕ))
    → Encode calls attrs
    → attrs_size attrs ≤ 65400
    → All IsWire attrs
Encode-IsWire [] [] w h = tt
Encode-IsWire [] (a ∷ attrs) w h = elim w [ ]
Encode-IsWire (c ∷ calls) [] w h = elim w [ ]
Encode-IsWire (c ∷ calls) ((t, v) ∷ attrs) (e, a, w) h = (
  (omega (arith, e, known_small c.attype c.len a.kind (length v) a.known), omega arith),
  Encode-IsWire calls attrs w (omega arith),
)

pub add_all-Carries :
    (e : Env) (p : MBuf) (h : Header) (old : List (ℕ × List ℕ)) (calls : List Call)
    (attrs : List (ℕ × List ℕ))
    → Carries p h old
    → Encode calls attrs
    → p.bsize + attrs_size attrs ≤ 65440
    → (q : MBuf) × (add_all e p calls ≡ returns q)
      × Carries q h (old ++ attrs)
      × (q.bsize ≡ p.bsize + attrs_size attrs)
unfolding add_all
add_all-Carries e p h old [] [] c w room = (p, refl, rw (append-nil old) c, omega arith)
add_all-Carries e p h old [] (a ∷ attrs) c w room = elim w [ ]
add_all-Carries e p h old (x ∷ calls) [] c w room = elim w [ ]
add_all-Carries e p h old (x ∷ calls) ((t, v) ∷ attrs) c (et, a, w) room =
    let (q, eq, cq, nq) =
      mbuf_addattrib-Carries e p h old x.attype x.len x.arg v c a (omega arith) in
    let (r, er, cr, nr) =
      add_all-Carries e q h (old ++ (x.attype, v) ∷ []) calls attrs cq w (omega (arith, nq)) in
    (
      r,
      rw eq er,
      rw (append_assoc old ((x.attype, v) ∷ []) attrs, ← et) at cr,
      omega (arith, nq, nr),
    )

Carries-read :
    (p : MBuf) (h : Header) (attrs : List (ℕ × List ℕ))
    → Carries p h attrs
    → All IsWire attrs
    → read_attrs (length attrs + 1) (mbuf_resetgetattrib p) ≡ attrs
unfolding mbuf_resetgetattrib
Carries-read p h attrs c w =
    read_attrs-payload attrs (length attrs + 1) (record p { boff = 40 }) c.wf.sized
      (omega (arith, c.wf.least)) w c.payload (omega arith)

-- A message composed by `mbuf_compose` and any calls of `mbuf_addattrib` that fit is built without
-- a fault, its header holds the given fields and the payload's length, and the loop over
-- `mbuf_getnextattrib` gives back exactly the attributes, in order.
pub read-compose :
    (e : Env) (type srcid dstid trfid : ℕ) (calls : List Call) (attrs : List (ℕ × List ℕ))
    → Encode calls attrs
    → attrs_size attrs ≤ 65400
    → (q : MBuf) × ((mbuf_compose e none type srcid dstid trfid >>= λ p. add_all e p calls)
        ≡ returns q)
      × (header q
          ≡ record (composed_header e.clock type srcid dstid trfid) { paylen = attrs_size attrs })
      × (read_attrs (length attrs + 1) (mbuf_resetgetattrib q) ≡ attrs)
read-compose e type srcid dstid trfid calls attrs w room =
    let h = composed_header e.clock type srcid dstid trfid in
    let (p, ep, bare) = mbuf_compose-IsBare e none type srcid dstid trfid tt in
    let (q, eq, c, n) =
      add_all-Carries e p h [] calls attrs (IsBare-Carries p h refl bare) w
        (omega (arith, bare.empty)) in
    (
      q,
      rw ep eq,
      c.reads ∙ ground (arith, n, bare.empty),
      Carries-read q h attrs c (Encode-IsWire calls attrs w room),
    )

-- The header of an error response to a message with header `h`.
abbrev pub error_header : ℕ → Header → Header
error_header now h = record (response_header now h) {
  type = mclass_to_err (mclass_to_res h.type % 2 ^ 16) % 2 ^ 16;
}

abbrev pub error_attrs : ℕ → List (ℕ × List ℕ)
error_attrs ec = (MsgAttr.error, put64 host ec) ∷ (MsgAttr.notice, sc_msgstr ec ++ 0 ∷ []) ∷ []

error-IsAttr : (ec : ℕ) → IsAttr MsgAttr.error 8 (ui64 ec) (put64 host ec)
unfolding avtype_of attr_value
error-IsAttr ec = record { kind = avtype_ui64; known = rw (length-put64 host ec); encodes = refl }

pub notice-IsAttr : (s : List ℕ) → IsAttr MsgAttr.notice (length s + 1) (str s) (s ++ 0 ∷ [])
unfolding avtype_of attr_value
notice-IsAttr s = record {
  kind = avtype_str;
  known = ap (λ n. returns (avtype_str, n)) (sym (length-append s (0 ∷ [])));
  encodes = refl;
}

-- `mbuf_to_error_response` succeeds on every well-formed message: the answer has the error class,
-- goes back to the sender under the same transaction, and carries the code and its message.
pub mbuf_to_error_response-Carries :
    (e : Env) (p : MBuf) (ec : ℕ)
    → IsWf p
    → (q : MBuf) × (mbuf_to_error_response e p ec ≡ returns q)
      × Carries q (error_header e.clock (header p)) (error_attrs ec)
unfolding mbuf_to_error_response header
mbuf_to_error_response-Carries e p ec w =
    let h = error_header e.clock (header p) in
    let (r, er, bare) = mbuf_to_response-IsBare e p w in
    let r1 = hdr_set_type r (mclass_to_err (hdr_get_type r)) in
    let d =
      edit_type (mclass_to_err (hdr_get_type r)) (omega (arith, bare.wf.sized, bare.empty))
        (Edited-start r) in
    let bare1 : IsBare r1 h = record {
      wf = Edited-IsWf bare.wf d;
      empty = d.shape.bsize_kept ∙ bare.empty;
      rewound = d.shape.boff_kept ∙ bare.rewound;
      reads = d.reads ∙ ground (arith, bare.reads);
    } in
    let c1 = IsBare-Carries r1 h refl bare1 in
    let (q, eq, cq, nq) =
      mbuf_addattrib-Carries e r1 h [] MsgAttr.error 8 (ui64 ec) (put64 host ec) c1
        (error-IsAttr ec) (omega (arith, bare1.empty, length-put64 host ec)) in
    let msg = sc_msgstr ec in
    let (s, es, cs, ns) =
      mbuf_addattrib-Carries e q h ((MsgAttr.error, put64 host ec) ∷ []) MsgAttr.notice
        (length msg + 1) (str msg) (msg ++ 0 ∷ []) cq (notice-IsAttr msg)
        (omega (
          arith,
          nq,
          bare1.empty,
          length-put64 host ec,
          length-sc_msgstr ec,
          length-append msg (0 ∷ []),
        )) in
    (s, rw er (rw eq es), cs)
