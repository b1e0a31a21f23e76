-- ===== src/Client/Stream.antt =====
-- cltmain.c, `handle_srvio`: the bytes that the client sends.
use frelay.Common.{ℕ, suc, ◌+◌, ◌-◌, ◌≤◌, ◌<◌, ◌≡◌, refl, sym, ap, ◌∙◌, arith}
use frelay.Common.{List, [], ◌∷◌, ◌++◌, length, take, drop, All, Bool-cases, ◌⊎◌, inl, inr}
use frelay.Common.{length-append, length-take, length-drop, take-append-drop, drop-drop}
use frelay.Common.{true, ltb, ◌==◌, take_all, if◌then◌else◌, Outcome, returns, faults, ◌>>=◌}
use mathlib.Core.List.{append_assoc}
use mathlib.Core.Path.{subst}
use frelay.Message.{MBuf, hdr_get_type, mclass_is_req}
use frelay.Server.Io.{moved}
use frelay.Client.{Client, dequeue_msg}
use frelay.Client.Io.{write_to, sent_from}

-- What is left of the messages in the queue.
abbrev pub unsent : List MBuf → List ℕ
unsent [] = []
unsent (m ∷ rest) = drop m.boff m.b ++ unsent rest

-- A message of which a part is left to send.
abbrev pub IsLeft : MBuf → Type 0
IsLeft m = (length m.b ≡ m.bsize) × (m.boff < m.bsize)

-- `write` takes at least one of the bytes, and at most all that it is given.
abbrev pub accepted : MBuf → ℕ → ℕ
accepted m x = if ltb x (m.bsize - m.boff) then suc (x - 1) else m.bsize - m.boff

-- A client that can write as often as there are numbers, while it has something to send: the bytes
-- that have gone, and the client behind.
pub write_each : List ℕ → Client → Outcome (List ℕ × Client)
write_each [] s = returns ([], s)
write_each (x ∷ xs) s = elim s.queue [
  | [] ↦ returns ([], s)
  | m ∷ rest ↦ (do
    s1 ← write_to s (moved (accepted m x))
    (out, s2) ← write_each xs s1
    returns (take (accepted m x) (drop m.boff m.b) ++ out, s2))
]

dequeue_msg-queue :
    (s : Client) (m : MBuf) (rest : List MBuf)
    → (s1 : Client) × (dequeue_msg (record s { queue = m ∷ rest }) ≡ returns s1) × (s1.queue ≡ rest)
unfolding dequeue_msg
dequeue_msg-queue s m rest = elim (Bool-cases (mclass_is_req (hdr_get_type m))) [
  | inl req ↦ (record s { queue = rest; requests = m ∷ s.requests }, rw req refl, refl)
  | inr other ↦ (record s { queue = rest }, rw other refl, refl)
]

-- What one `write` of `w` bytes makes of the queue.
sent_from-unsent :
    (s : Client) (m : MBuf) (rest : List MBuf) (w : ℕ)
    → IsLeft m
    → All IsLeft rest
    → 0 < w
    → m.boff + w ≤ m.bsize
    → (s1 : Client) × (sent_from s m rest w ≡ returns s1)
      × (take w (drop m.boff m.b) ++ unsent s1.queue ≡ unsent (m ∷ rest))
      × All IsLeft s1.queue
unfolding sent_from
sent_from-unsent s m rest w left all some_bytes fits =
    let m1 = record m { boff = m.boff + w } in
    elim (Bool-cases (m.boff + w == m.bsize)) [
      | inl full ↦
          (let (s1, e, q) = dequeue_msg-queue s m1 rest in
            (
              s1,
              rw full e,
              ap (λ q. take w (drop m.boff m.b) ++ unsent q) q
                  ∙ ap (λ xs. xs ++ unsent rest)
                      (take_all w (drop m.boff m.b)
                        (ground (arith, left.0, length-drop m.boff m.b))),
              subst (All IsLeft) (sym q) all,
            ))
      | inr part ↦ (
        record s { queue = m1 ∷ rest },
        rw part refl,
        sym (append_assoc (take w (drop m.boff m.b)) (drop (m.boff + w) m.b) (unsent rest))
            ∙ ap (λ xs. take w (drop m.boff m.b) ++ xs ++ unsent rest)
                (sym (drop-drop w m.boff m.b))
            ∙ ap (λ xs. xs ++ unsent rest) (take-append-drop w (drop m.boff m.b)),
        ((left.0, ground arith), all),
      )
    ]

write_to-unsent :
    (s : Client) (m : MBuf) (rest : List MBuf) (w : ℕ)
    → s.queue ≡ m ∷ rest
    → IsLeft m
    → All IsLeft rest
    → m.boff + suc w ≤ m.bsize
    → (s1 : Client) × (write_to s (moved (suc w)) ≡ returns s1)
      × (take (suc w) (drop m.boff m.b) ++ unsent s1.queue ≡ unsent (m ∷ rest))
      × All IsLeft s1.queue
unfolding write_to
write_to-unsent s m rest w e left all fits =
    let (s1, r, q, a) = sent_from-unsent s m rest (suc w) left all (omega arith) fits in
    let inside : ltb m.boff m.bsize ≡ true = ground (arith, left.1) in
    (
      s1,
      ap
            (λ l. elim l [
              | [] ↦ faults
              | x ∷ more ↦
                  if ltb x.boff x.bsize then sent_from s x more (suc w) else sent_from s x more 0
            ])
            e
          ∙ rw inside r,
      q,
      a,
    )

accepted-suc :
    (m : MBuf) (x : ℕ) → IsLeft m → (w : ℕ) × (accepted m x ≡ suc w) × (m.boff + suc w ≤ m.bsize)
accepted-suc m x left = elim (Bool-cases (ltb x (m.bsize - m.boff))) [
  | inl part ↦ (x - 1, rw part refl, ground (arith, left.1))
  | inr whole ↦ (m.bsize - m.boff - 1, rw whole (omega (arith, left.1)), omega (arith, left.1))
]

-- How writing comes out: what has gone, followed by what is left, is what was there before; and
-- nothing is left, or each time that the client could write took one byte at least.
pub record Gone (xs : List ℕ) (s : Client) : Type 0 where
  pub out : List ℕ
  pub after : Client
  pub runs : write_each xs s ≡ returns (out, after)
  pub in_order : out ++ unsent after.queue ≡ unsent s.queue
  pub left : All IsLeft after.queue
  pub progress : (after.queue ≡ []) ⊎ (length xs ≤ length out)

-- The choice of `write_each`, for a queue that is known.
abbrev by_queue : ℕ → List ℕ → Client → List MBuf → Outcome (List ℕ × Client)
by_queue x xs s [] = returns ([], s)
by_queue x xs s (m ∷ rest) = do
  s1 ← write_to s (moved (accepted m x))
  (out, s2) ← write_each xs s1
  returns (take (accepted m x) (drop m.boff m.b) ++ out, s2)

write_each-by_queue :
    (x : ℕ) (xs : List ℕ) (s : Client) → write_each (x ∷ xs) s ≡ by_queue x xs s s.queue
unfolding write_each
write_each-by_queue x xs s = elim_eta s.queue
  where
    elim_eta :
        (q : List MBuf)
        → elim q [ [] ↦ returns ([], s) | m ∷ rest ↦ by_queue x xs s (m ∷ rest) ]
          ≡ by_queue x xs s q
    elim_eta [] = refl
    elim_eta (m ∷ rest) = refl

Gone-step :
    (x : ℕ) (xs : List ℕ) (s : Client) (m : MBuf) (rest : List MBuf)
    → s.queue ≡ m ∷ rest
    → IsLeft m
    → All IsLeft rest
    → ((s1 : Client) → All IsLeft s1.queue → Gone xs s1)
    → Gone (x ∷ xs) s
Gone-step x xs s m rest e left all ih =
    let (w, ew, fits) = accepted-suc m x left in
    let (s1, r, q, a) = write_to-unsent s m rest w e left all fits in
    let g = ih s1 a in
    let front = take (accepted m x) (drop m.boff m.b) in
    let took : length front ≡ suc w =
      omega
        (arith, length-take (accepted m x) (drop m.boff m.b), length-drop m.boff m.b, ew, left.0) in
    record {
      out = front ++ g.out;
      after = g.after;
      runs =
          write_each-by_queue x xs s
          ∙ ap (by_queue x xs s) e
          ∙ rw (ap (λ n. write_to s (moved n)) ew ∙ r, g.runs) refl;
      in_order =
          append_assoc front g.out (unsent g.after.queue)
          ∙ ap (λ ys. front ++ ys) g.in_order
          ∙ ap (λ n. take n (drop m.boff m.b) ++ unsent s1.queue) ew
          ∙ q
          ∙ ap unsent (sym e);
      left = g.left;
      progress = elim g.progress [
        | inl done ↦ inl done
        | inr many ↦ inr (omega (arith, took, length-append front g.out))
      ];
    }

-- The client sends the messages of its queue one after the other and byte for byte, whatever part
-- of a message each `write` takes: what has gone, followed by what is left, is what was there
-- before. It never reads an empty queue, and it goes on until nothing is left or it could not write
-- any more, with one byte at least for each time that it could.
pub write_each-Gone : (xs : List ℕ) (s : Client) → All IsLeft s.queue → Gone xs s
write_each-Gone [] s all = record {
  out = [];
  after = s;
  runs = unfold write_each in refl;
  in_order = refl;
  left = all;
  progress = inr (omega arith);
}
write_each-Gone (x ∷ xs) s all = by_cases s.queue refl all (λ s1 a. write_each-Gone xs s1 a)
  where
    by_cases :
        (q : List MBuf)
        → s.queue ≡ q
        → All IsLeft q
        → ((s1 : Client) → All IsLeft s1.queue → Gone xs s1)
        → Gone (x ∷ xs) s
    by_cases [] e a ih = record {
      out = [];
      after = s;
      runs = write_each-by_queue x xs s ∙ ap (by_queue x xs s) e;
      in_order = refl;
      left = all;
      progress = inl e;
    }
    by_cases (m ∷ rest) e (a, more) ih = Gone-step x xs s m rest e a more ih
