-- ===== src/Server/Delivered.antt =====
-- srvmain.c: the server after a message has gone from one client's receive buffer to a queue.
use frelay.Common.{ℕ, zero, suc, ◌≡◌, refl, ap, ◌∙◌, arith}
use frelay.Common.{
  List, [], ◌∷◌, ◌++◌, get_elem?, set, get_elem?-set_self, get_elem?-lt, length-set,
  get_elem?-set_cases,
}
use frelay.Common.{true, ◌==◌, if◌then◌else◌, Bool-cases, inl, inr}
use frelay.Common.{none, some}
use frelay.Message.{MBuf}
use frelay.Server.{Client, Server, put_client, enqueue_msg, fd_set?}

abbrev pub taken : Client → Client
taken c = record c { rbuf = none }

-- The server after the message `sent` has gone from the client `c` in slot `i` to `d` in slot `j`.
unfoldable pub delivered : Server → ℕ → Client → ℕ → Client → MBuf → Server
delivered s i c j d sent =
    enqueue_msg (put_client s i (taken c)) j (if i == j then taken d else d) sent

pub get_elem?-taken :
    (cs : List Client) (i : ℕ) (c : Client) (j : ℕ) (d : Client)
    → get_elem? cs i ≡ some c
    → get_elem? cs j ≡ some d
    → get_elem? (set cs i (taken c)) j ≡ some (if i == j then taken d else d)
get_elem?-taken [] i c j d hi hj = cc
get_elem?-taken (x ∷ cs) zero c zero d hi hj = let same : c ≡ d = cc in rw same refl
get_elem?-taken (x ∷ cs) zero c (suc j) d hi hj = hj ∙ ground arith
get_elem?-taken (x ∷ cs) (suc i) c zero d hi hj = hj ∙ ground arith
get_elem?-taken (x ∷ cs) (suc i) c (suc j) d hi hj = get_elem?-taken cs i c j d hi hj ∙ grind arith

taken_self : (i j : ℕ) (d : Client) → i ≡ j → (if i == j then taken d else d).rbuf ≡ none
taken_self i j d e = let yes : (i == j) ≡ true = ground arith in rw yes refl

-- Afterwards the sender's receive buffer is gone.
pub delivered-sender :
    (s : Server) (i : ℕ) (c : Client) (j : ℕ) (d : Client) (m : MBuf)
    → get_elem? s.clients i ≡ some c
    → (x : Client) × (get_elem? (delivered s i c j d m).clients i ≡ some x) × (x.rbuf ≡ none)
unfolding delivered put_client enqueue_msg
delivered-sender s i c j d m hi =
    let d1 = if i == j then taken d else d in
    let (x, ex, which) =
      get_elem?-set_cases (set s.clients i (taken c)) i j (taken c)
        (record d1 { queue = d1.queue ++ record m { boff = 0 } ∷ [] })
        (get_elem?-set_self s.clients i (taken c) (get_elem?-lt s.clients i hi)) in
    (
      x,
      ex,
      elim which [
        | inl e ↦ ap (λ y. y.rbuf) e
        | inr (e, f) ↦ ap (λ y. y.rbuf) f ∙ taken_self i j d e
      ],
    )

-- Only the receive buffer differs.
unfoldable pub target : ℕ → ℕ → Client → Client
target i j d = if i == j then taken d else d

pub target_kept :
    (i j : ℕ) (d : Client) → ((target i j d).queue ≡ d.queue) × ((target i j d).fd ≡ d.fd)
unfolding target
target_kept i j d = elim (Bool-cases (i == j)) [
  | inl same ↦ (rw same refl, rw same refl)
  | inr other ↦ (rw other refl, rw other refl)
]

unfoldable pub enqueued : Client → MBuf → Client
enqueued c m = record c { queue = c.queue ++ record m { boff = 0 } ∷ [] }

pub delivered-target :
    (s : Server) (i : ℕ) (c : Client) (j : ℕ) (d : Client) (m : MBuf)
    → get_elem? s.clients j ≡ some d
    → get_elem? (delivered s i c j d m).clients j ≡ some (enqueued (target i j d) m)
unfolding delivered put_client enqueue_msg target enqueued
delivered-target s i c j d m hj =
    get_elem?-set_self (set s.clients i (taken c)) j (enqueued (target i j d) m)
      (omega (arith, get_elem?-lt s.clients j hj, length-set s.clients i (taken c)))

pub delivered-armed :
    (s : Server) (i : ℕ) (c : Client) (j : ℕ) (d : Client) (m : MBuf)
    → (delivered s i c j d m).m_wfds ≡ fd_set? d.fd s.m_wfds
unfolding delivered target put_client enqueue_msg
delivered-armed s i c j d m = ap (λ f. fd_set? f s.m_wfds) ((target_kept i j d).1)

pub delivered-clients :
    (s : Server) (i : ℕ) (c : Client) (j : ℕ) (d : Client) (m : MBuf)
    → (delivered s i c j d m).clients
      ≡ set (set s.clients i (taken c)) j (enqueued (target i j d) m)
unfolding delivered put_client enqueue_msg target enqueued
delivered-clients s i c j d m = refl

pub delivered-db :
    (s : Server) (i : ℕ) (c : Client) (j : ℕ) (d : Client) (m : MBuf)
    → (delivered s i c j d m).db ≡ s.db
unfolding delivered put_client enqueue_msg
delivered-db s i c j d m = refl
