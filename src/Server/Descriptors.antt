-- ===== src/Server/Descriptors.antt =====
-- srvmain.c: the descriptor set `m_wfds` and the send queues agree.
use frelay.Common.{ℕ, zero, suc, ◌≡◌, ◌≢◌, sym, ap, ◌∙◌, List, [], ◌∷◌, get_elem?, set}
use frelay.Common.{Option, none, some, Bool, true, false}
use frelay.Server.{Client, Server, FdSet}

abbrev pub has_mail : Client → Bool
has_mail c = elim c.queue [ [] ↦ false | m ∷ rest ↦ true ]

abbrev pub InOrder : FdSet → Option ℕ → Bool → Type 0
InOrder w none mail = Unit {0}
InOrder w (some n) mail = w n ≡ mail

-- A descriptor is set exactly if its client has messages to send.
abbrev pub AllInOrder : FdSet → List Client → Type 0
AllInOrder w [] = Unit {0}
AllInOrder w (c ∷ cs) = InOrder w c.fd (has_mail c) × AllInOrder w cs

abbrev Apart : Option ℕ → List Client → Type 0
Apart none cs = Unit {0}
Apart (some n) [] = Unit {0}
Apart (some n) (c ∷ cs) = (c.fd ≢ some n) × Apart (some n) cs

-- No two clients have the same descriptor.
abbrev DistinctFds : List Client → Type 0
DistinctFds [] = Unit {0}
DistinctFds (c ∷ cs) = Apart c.fd cs × DistinctFds cs

pub record IsSound (s : Server) : Type 0 where
  pub distinct : DistinctFds s.clients
  pub in_order : AllInOrder s.m_wfds s.clients

Apart-get :
    (k : ℕ) (cs : List Client) (i : ℕ) (c : Client)
    → Apart (some k) cs
    → get_elem? cs i ≡ some c
    → c.fd ≢ some k
Apart-get k [] i c h e = cc
Apart-get k (x ∷ cs) zero c (h, hs) e = let same : x ≡ c = cc in rw same at h
Apart-get k (x ∷ cs) (suc i) c (h, hs) e = Apart-get k cs i c hs e

Apart-set :
    (f : Option ℕ) (cs : List Client) (i : ℕ) (c new : Client)
    → get_elem? cs i ≡ some c
    → new.fd ≡ c.fd
    → Apart f cs
    → Apart f (set cs i new)
Apart-set none cs i c new e same h = tt
Apart-set (some k) [] i c new e same h = tt
Apart-set (some k) (x ∷ cs) zero c new e same (h, hs) =
    let xc : x ≡ c = cc in (rw same (rw xc at h), hs)
Apart-set (some k) (x ∷ cs) (suc i) c new e same (h, hs) =
    (h, Apart-set (some k) cs i c new e same hs)

pub DistinctFds-set :
    (cs : List Client) (i : ℕ) (c new : Client)
    → get_elem? cs i ≡ some c
    → new.fd ≡ c.fd
    → DistinctFds cs
    → DistinctFds (set cs i new)
DistinctFds-set [] i c new e same h = tt
DistinctFds-set (x ∷ cs) zero c new e same (h, hs) =
    let xc : x ≡ c = cc in (rw same (rw xc at h), hs)
DistinctFds-set (x ∷ cs) (suc i) c new e same (h, hs) =
    (Apart-set x.fd cs i c new e same h, DistinctFds-set cs i c new e same hs)

-- A change of the set at `n` only does not matter to clients that are apart from `n`.
InOrder-other :
    (w v : FdSet) (n : ℕ) (f : Option ℕ) (mail : Bool)
    → f ≢ some n
    → ((k : ℕ) → k ≢ n → v k ≡ w k)
    → InOrder w f mail
    → InOrder v f mail
InOrder-other w v n none mail d e h = tt
InOrder-other w v n (some k) mail d e h = e k (λ q. d (ap some q)) ∙ h

AllInOrder-other :
    (w v : FdSet) (n : ℕ) (cs : List Client)
    → Apart (some n) cs
    → ((k : ℕ) → k ≢ n → v k ≡ w k)
    → AllInOrder w cs
    → AllInOrder v cs
AllInOrder-other w v n [] d e h = tt
AllInOrder-other w v n (c ∷ cs) (d, ds) e (h, hs) =
    (InOrder-other w v n c.fd (has_mail c) d e h, AllInOrder-other w v n cs ds e hs)

-- A client is replaced, and the set changes at its descriptor only.
pub AllInOrder-set :
    (w v : FdSet) (n : ℕ) (cs : List Client) (i : ℕ) (c new : Client)
    → get_elem? cs i ≡ some c
    → c.fd ≡ some n
    → InOrder v new.fd (has_mail new)
    → ((k : ℕ) → k ≢ n → v k ≡ w k)
    → DistinctFds cs
    → AllInOrder w cs
    → AllInOrder v (set cs i new)
AllInOrder-set w v n [] i c new e en hn ev d h = tt
AllInOrder-set w v n (x ∷ cs) zero c new e en hn ev (d, ds) (h, hs) =
    let fd : x.fd ≡ some n = ap (λ o. elim o [ none ↦ none | some y ↦ y.fd ]) e ∙ en in
    (hn, AllInOrder-other w v n cs (rw fd at d) ev hs)
AllInOrder-set w v n (x ∷ cs) (suc i) c new e en hn ev (d, ds) (h, hs) = (
  InOrder-other w v n x.fd (has_mail x) (λ q. Apart-get n cs i c (rw q at d) e en) ev h,
  AllInOrder-set w v n cs i c new e en hn ev ds hs,
)

Apart-gone :
    (f : Option ℕ) (cs : List Client) (i : ℕ) (new : Client)
    → new.fd ≡ none
    → Apart f cs
    → Apart f (set cs i new)
Apart-gone none cs i new e h = tt
Apart-gone (some k) [] i new e h = tt
Apart-gone (some k) (x ∷ cs) zero new e (h, hs) = ((λ q. none_is_not_some (sym e ∙ q)), hs)
  where
    none_is_not_some : none ≡ some k → ⊥
    none_is_not_some q = cc
Apart-gone (some k) (x ∷ cs) (suc i) new e (h, hs) = (h, Apart-gone (some k) cs i new e hs)

pub DistinctFds-gone :
    (cs : List Client) (i : ℕ) (new : Client)
    → new.fd ≡ none
    → DistinctFds cs
    → DistinctFds (set cs i new)
DistinctFds-gone [] i new e h = tt
DistinctFds-gone (x ∷ cs) zero new e (h, hs) = (rw e tt, hs)
DistinctFds-gone (x ∷ cs) (suc i) new e (h, hs) =
    (Apart-gone x.fd cs i new e h, DistinctFds-gone cs i new e hs)
