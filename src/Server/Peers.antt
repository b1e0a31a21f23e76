-- ===== src/Server/Peers.antt =====
-- srvmain.c, PEERLIST_REQ: what the list holds, and when it does not fit a message.
use frelay.Common.{ℕ, ◌+◌, ◌≤◌, ◌≡◌, refl, sym, ap, ◌∙◌, arith}
use frelay.Common.{
  List, [], ◌∷◌, ◌++◌, length, length-append, Bool, true, ◌&&◌, if◌then◌else◌, Bool-cases, inl, inr,
}
use frelay.Common.{none, some, returns}
use mathlib.Core.List.{append_assoc, append-nil}
use frelay.Bytes.{put64}
use frelay.Bytes.Order.{length-put64}
use frelay.Message.MsgAttr
use frelay.Message.{
  MBuf, Env, ui64, str, host, avtype_ui64, avtype_str, avtype_of, attr_value, mbuf_addattrib,
}
use frelay.Message.Header.{Header, header}
use frelay.Message.Buffer.{IsWf, response_header, mbuf_to_response-IsBare}
use frelay.Message.Append.{IsAttr}
use frelay.Message.RoundTrip.{Carries, IsBare-Carries, mbuf_addattrib-Carries, attrs_size}
use frelay.Server.{Client, Server, is_open, is_auth_ok}
use frelay.Server.Requests.{peer_attrs, peerlist_req, set_rbuf, non_null}

-- Open, authenticated clients are listed; each has a name.
abbrev is_listed : Client → Bool
is_listed c = is_open c && is_auth_ok c.st

abbrev Named : List Client → Type 0
Named [] = Unit {0}
Named (c ∷ cs) = (is_listed c ≡ true → (n : List ℕ) × (c.name ≡ some n)) × Named cs

abbrev name_of : Client → List ℕ
name_of c = elim c.name [ none ↦ [] | some n ↦ n ]

-- The id and the name of every listed client, in the order of the array.
abbrev pub peers : List Client → List (ℕ × List ℕ)
peers [] = []
peers (c ∷ cs) =
    let rest = peers cs in
    if is_listed c
    then (MsgAttr.peerid, put64 host c.id) ∷ (MsgAttr.peername, name_of c ++ 0 ∷ []) ∷ rest
    else rest

peerid-IsAttr : (v : ℕ) → IsAttr MsgAttr.peerid 8 (ui64 v) (put64 host v)
unfolding avtype_of attr_value
peerid-IsAttr v = record { kind = avtype_ui64; known = rw (length-put64 host v); encodes = refl }

peername-IsAttr : (s : List ℕ) → IsAttr MsgAttr.peername (length s + 1) (str s) (s ++ 0 ∷ [])
unfolding avtype_of attr_value
peername-IsAttr s = record {
  kind = avtype_str;
  known = ap (λ n. returns (avtype_str, n)) (sym (length-append s (0 ∷ [])));
  encodes = refl;
}

peer_attrs-listed :
    (e : Env) (m p q : MBuf) (c : Client) (n : List ℕ) (cs : List Client)
    → is_listed c ≡ true
    → c.name ≡ some n
    → mbuf_addattrib e m MsgAttr.peerid 8 (ui64 c.id) ≡ returns p
    → mbuf_addattrib e p MsgAttr.peername (length n + 1) (str n) ≡ returns q
    → peer_attrs e (c ∷ cs) m ≡ peer_attrs e cs q
unfolding peer_attrs non_null
peer_attrs-listed e m p q c n cs listed named ep eq = rw (listed, ep, named, eq)

peers-listed :
    (c : Client) (n : List ℕ) (cs : List Client)
    → is_listed c ≡ true
    → c.name ≡ some n
    → peers (c ∷ cs)
      ≡ (MsgAttr.peerid, put64 host c.id) ∷ (MsgAttr.peername, n ++ 0 ∷ []) ∷ peers cs
peers-listed c n cs listed named = rw (listed, named)

regroup :
    (r : MBuf) (h : Header) (old : List (ℕ × List ℕ)) (a b : ℕ × List ℕ) (more : List (ℕ × List ℕ))
    → Carries r h ((old ++ a ∷ []) ++ b ∷ [] ++ more)
    → Carries r h (old ++ a ∷ b ∷ more)
regroup r h old a b more c =
    rw (← append_assoc old (a ∷ []) (b ∷ more), ← append_assoc (old ++ a ∷ []) (b ∷ []) more) c

-- A listed client in front of the others, for which the claim is given.
listed_step :
    (e : Env) (c : Client) (n : List ℕ) (cs : List Client) (m : MBuf) (h : Header)
    (old : List (ℕ × List ℕ))
    → Carries m h old
    → is_listed c ≡ true
    → c.name ≡ some n
    → ((q : MBuf) (old : List (ℕ × List ℕ))
        → Carries q h old
        → q.bsize + attrs_size (peers cs) ≤ 65440
        → (r : MBuf) × (peer_attrs e cs q ≡ returns r) × Carries r h (old ++ peers cs))
    → m.bsize
        + attrs_size
            ((MsgAttr.peerid, put64 host c.id) ∷ (MsgAttr.peername, n ++ 0 ∷ []) ∷ peers cs)
      ≤ 65440
    → (q : MBuf) × (peer_attrs e (c ∷ cs) m ≡ returns q) × Carries q h (old ++ peers (c ∷ cs))
listed_step e c n cs m h old cm listed named others room =
    let id8 = length-put64 host c.id in
    let (p, ep, cp, np) =
      mbuf_addattrib-Carries e m h old MsgAttr.peerid 8 (ui64 c.id) (put64 host c.id) cm
        (peerid-IsAttr c.id) (omega arith) in
    let (q, eq, cq, nq) =
      mbuf_addattrib-Carries e p h (old ++ (MsgAttr.peerid, put64 host c.id) ∷ []) MsgAttr.peername
        (length n + 1) (str n) (n ++ 0 ∷ []) cp (peername-IsAttr n) (omega (arith, np)) in
    let (r, er, cr) = others q _ cq (omega (arith, np, nq)) in
    (
      r,
      peer_attrs-listed e m p q c n cs listed named ep eq ∙ er,
      rw (peers-listed c n cs listed named) (
          regroup r h old (MsgAttr.peerid, put64 host c.id) (MsgAttr.peername, n ++ 0 ∷ [])
            (peers cs) cr),
    )

peer_attrs-Carries :
    (e : Env) (cs : List Client) (m : MBuf) (h : Header) (old : List (ℕ × List ℕ))
    → Carries m h old
    → Named cs
    → m.bsize + attrs_size (peers cs) ≤ 65440
    → (q : MBuf) × (peer_attrs e cs m ≡ returns q) × Carries q h (old ++ peers cs)
unfolding peer_attrs
peer_attrs-Carries e [] m h old cm w room = (m, refl, rw (append-nil old) cm)
peer_attrs-Carries e (c ∷ cs) m h old cm (w, ws) room = elim (Bool-cases (is_listed c)) [
  | inl listed ↦
      (let (n, named) = w listed in
        listed_step e c n cs m h old cm listed named
          (λ q old' cq room'. peer_attrs-Carries e cs q h old' cq ws room')
          (rw (peers-listed c n cs listed named) at room))
  | inr hidden ↦
      (let (q, eq, cq) = peer_attrs-Carries e cs m h old cm ws (rw hidden at room) in
        (q, rw hidden eq, rw hidden cq))
]

-- A PEERLIST request is answered with the id and the name of every logged-in client, and of no
-- other, when these have names and all fit one message.
pub peerlist_req-Carries :
    (e : Env) (s : Server) (i : ℕ) (c : Client) (m : MBuf)
    → IsWf m
    → Named s.clients
    → attrs_size (peers s.clients) ≤ 65400
    → (r : MBuf) × (peerlist_req e s i c m ≡ returns (set_rbuf s i c (some r)))
      × Carries r (response_header e.clock (header m)) (peers s.clients)
unfolding peerlist_req
peerlist_req-Carries e s i c m w named room =
    let h = response_header e.clock (header m) in
    let (p, ep, bare) = mbuf_to_response-IsBare e m w in
    let (q, eq, cq) =
      peer_attrs-Carries e s.clients p h [] (IsBare-Carries p h refl bare) named
        (omega (arith, bare.empty)) in
    (q, rw ep (rw eq), cq)
