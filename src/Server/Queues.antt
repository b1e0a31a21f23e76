-- ===== src/Server/Queues.antt =====
-- srvmain.c: a message that `handle_io` and `dequeue_msg` take from a queue is there.
use frelay.Common.{
  ℕ, zero, suc, ◌≡◌, ◌≢◌, refl, sym, ◌∙◌, arith, List, [], ◌∷◌, ◌++◌, get_elem?, set,
}
use frelay.Common.{get_elem?-set_self, get_elem?-set_ne, get_elem?-lt}
use frelay.Common.{none, some, true, false, ◌==◌, returns, true_is_not_false}
use frelay.Message.{MBuf}
use frelay.Server.{
  Client, Server, FdSet, fd_set, fd_clr, fd_set?, fd_clr?, enqueue_msg, dequeue_msg, close_client,
  closed_client, put_client,
}
use frelay.Server.Descriptors.{
  has_mail, InOrder, AllInOrder, IsSound, DistinctFds-set, DistinctFds-gone, AllInOrder-set,
}

set_elsewhere : (w : FdSet) (n k : ℕ) → k ≢ n → fd_set n w k ≡ w k
unfolding fd_set
set_elsewhere w n k h = let no : (k == n) ≡ false = ground arith in rw no refl

clr_elsewhere : (w : FdSet) (n k : ℕ) → k ≢ n → fd_clr n w k ≡ w k
unfolding fd_clr
clr_elsewhere w n k h = let no : (k == n) ≡ false = ground arith in rw no refl

set_here : (w : FdSet) (n : ℕ) → fd_set n w n ≡ true
unfolding fd_set
set_here w n = let yes_n : (n == n) ≡ true = ground arith in rw yes_n refl

clr_here : (w : FdSet) (n : ℕ) → fd_clr n w n ≡ false
unfolding fd_clr
clr_here w n = let yes_n : (n == n) ≡ true = ground arith in rw yes_n refl

has_mail-append :
    (c : Client) (q : List MBuf) (m : MBuf) → has_mail (record c { queue = q ++ m ∷ [] }) ≡ true
has_mail-append c [] m = refl
has_mail-append c (x ∷ q) m = refl

-- Appending a message to the queue of a connected client keeps the sets and the queues in order.
pub enqueue_msg-IsSound :
    (s : Server) (i : ℕ) (c : Client) (m : MBuf) (n : ℕ)
    → IsSound s
    → get_elem? s.clients i ≡ some c
    → c.fd ≡ some n
    → IsSound (enqueue_msg s i c m)
unfolding enqueue_msg fd_set?
enqueue_msg-IsSound s i c m n v e en = record {
  distinct = DistinctFds-set s.clients i c _ e refl v.distinct;
  in_order =
      AllInOrder-set s.m_wfds _ n s.clients i c _ e en
        (rw en (set_here s.m_wfds n ∙ sym (has_mail-append c c.queue (record m { boff = 0 }))))
        (λ k h. rw en (set_elsewhere s.m_wfds n k h)) v.distinct v.in_order;
}

InOrder-get :
    (w : FdSet) (cs : List Client) (i : ℕ) (c : Client)
    → AllInOrder w cs
    → get_elem? cs i ≡ some c
    → InOrder w c.fd (has_mail c)
InOrder-get w [] i c h e = cc
InOrder-get w (x ∷ cs) zero c (h, hs) e = let same : x ≡ c = cc in rw same at h
InOrder-get w (x ∷ cs) (suc i) c (h, hs) e = InOrder-get w cs i c hs e

dequeued-last :
    (s : Server) (i : ℕ) (c : Client) (n : ℕ)
    → IsSound s
    → get_elem? s.clients i ≡ some c
    → c.fd ≡ some n
    → IsSound (record s {
      clients = set s.clients i (record c { queue = [] });
      m_wfds = fd_clr? c.fd s.m_wfds;
    })
unfolding fd_clr?
dequeued-last s i c n v e en = record {
  distinct = DistinctFds-set s.clients i c _ e refl v.distinct;
  in_order =
      AllInOrder-set s.m_wfds _ n s.clients i c _ e en (rw en (clr_here s.m_wfds n))
        (λ k h. rw en (clr_elsewhere s.m_wfds n k h)) v.distinct v.in_order;
}

dequeued-first :
    (s : Server) (i : ℕ) (c : Client) (n : ℕ) (m : MBuf) (rest : List MBuf)
    → IsSound s
    → get_elem? s.clients i ≡ some c
    → c.fd ≡ some n
    → s.m_wfds n ≡ true
    → IsSound (record s { clients = set s.clients i (record c { queue = m ∷ rest }) })
dequeued-first s i c n m rest v e en armed = record {
  distinct = DistinctFds-set s.clients i c _ e refl v.distinct;
  in_order =
      AllInOrder-set s.m_wfds s.m_wfds n s.clients i c _ e en (rw en armed) (λ k h. refl) v.distinct
        v.in_order;
}

-- Where the sets and the queues are in order, a client whose descriptor is set has a message to
-- send, so taking it off the queue is safe; it is the first one, and everything is in order again.
pub dequeue_msg-IsSound :
    (s : Server) (i : ℕ) (c : Client) (n : ℕ)
    → IsSound s
    → get_elem? s.clients i ≡ some c
    → c.fd ≡ some n
    → s.m_wfds n ≡ true
    → (t : Server) × (m : MBuf) × (rest : List MBuf) × (c.queue ≡ m ∷ rest)
      × (dequeue_msg s i c ≡ returns t)
      × (t.clients ≡ set s.clients i (record c { queue = rest }))
      × IsSound t
unfolding dequeue_msg
dequeue_msg-IsSound s i c n v e en armed = by_queue c.queue refl
  where
    mail : has_mail c ≡ true
    mail = sym (rw en at (InOrder-get s.m_wfds s.clients i c v.in_order e)) ∙ armed

    by_queue :
        (q : List MBuf)
        → c.queue ≡ q
        → (t : Server) × (m : MBuf) × (rest : List MBuf) × (c.queue ≡ m ∷ rest)
          × (dequeue_msg s i c ≡ returns t)
          × (t.clients ≡ set s.clients i (record c { queue = rest }))
          × IsSound t
    by_queue [] h =
        let empty : has_mail c ≡ false = rw h refl in absurd (true_is_not_false (sym mail ∙ empty))
    by_queue (m ∷ []) h = (
      record s {
        clients = set s.clients i (record c { queue = [] });
        m_wfds = fd_clr? c.fd s.m_wfds;
      },
      m,
      [],
      h,
      rw (h, dequeue_msg) refl,
      refl,
      dequeued-last s i c n v e en,
    )
    by_queue (m ∷ m2 ∷ rest) h = (
      record s { clients = set s.clients i (record c { queue = m2 ∷ rest }) },
      m,
      m2 ∷ rest,
      h,
      rw (h, dequeue_msg) refl,
      refl,
      dequeued-first s i c n m2 rest v e en armed,
    )

pub closed-IsSound :
    (s : Server) (i : ℕ) (c : Client) (n : ℕ)
    → IsSound s
    → get_elem? s.clients i ≡ some c
    → c.fd ≡ some n
    → IsSound (close_client s i c)
unfolding close_client put_client fd_clr?
closed-IsSound s i c n v e en = record {
  distinct = DistinctFds-gone s.clients i closed_client refl v.distinct;
  in_order =
      AllInOrder-set s.m_wfds _ n s.clients i c closed_client e en tt
        (λ k h. rw en (clr_elsewhere s.m_wfds n k h)) v.distinct v.in_order;
}

-- Closing a connected client leaves no trace of it: its descriptor is neither read from nor written
-- to any more, the bits of all other descriptors are as before, its slot has no descriptor, no
-- message to send and no receive buffer, all other slots are as before, and the sets and the queues
-- are in order.
pub close_client-IsSound :
    (s : Server) (i : ℕ) (c : Client) (n k j : ℕ)
    → IsSound s
    → get_elem? s.clients i ≡ some c
    → c.fd ≡ some n
    → k ≢ n
    → i ≢ j
    → IsSound (close_client s i c)
      × ((close_client s i c).m_rfds n ≡ false)
      × ((close_client s i c).m_wfds n ≡ false)
      × ((close_client s i c).m_rfds k ≡ s.m_rfds k)
      × ((close_client s i c).m_wfds k ≡ s.m_wfds k)
      × ((x : Client) × (get_elem? (close_client s i c).clients i ≡ some x)
          × (x.fd ≡ none)
          × (x.queue ≡ [])
          × (x.rbuf ≡ none))
      × (get_elem? (close_client s i c).clients j ≡ get_elem? s.clients j)
unfolding close_client put_client fd_clr?
close_client-IsSound s i c n k j v e en h g = (
  closed-IsSound s i c n v e en,
  rw en (clr_here s.m_rfds n),
  rw en (clr_here s.m_wfds n),
  rw en (clr_elsewhere s.m_rfds n k h),
  rw en (clr_elsewhere s.m_wfds n k h),
  (
    closed_client,
    get_elem?-set_self s.clients i closed_client (get_elem?-lt s.clients i e),
    refl,
    refl,
    refl,
  ),
  get_elem?-set_ne s.clients i j closed_client g,
)
