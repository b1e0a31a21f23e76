-- ===== src/Server/Replies.antt =====
-- srvmain.c: the replies that the handlers of the server's requests build.
use frelay.Common.{ℕ, ◌+◌, ◌<◌, ◌≡◌, refl, arith}
use frelay.Common.{List, [], ◌∷◌, ◌++◌, length, length-append}
use frelay.Common.{some, returns, ◌>>=◌}
use frelay.Message.MsgAttr
use frelay.Message.{
  MBuf, Env, null, str, blob, avtype_none, avtype_blob, avtype_of, attr_value, mbuf_addattrib,
  mbuf_to_response,
}
use frelay.Message.Header.{header}
use frelay.Message.Buffer.{IsWf, response_header, mbuf_to_response-IsBare}
use frelay.Message.Append.{IsAttr}
use frelay.Message.RoundTrip.{
  Carries, IsBare-Carries, mbuf_addattrib-Carries, error_header, error_attrs, notice-IsAttr,
  mbuf_to_error_response-Carries,
}
use frelay.Server.{Client, Server}
use frelay.Server.Requests.{
  set_rbuf, error_reply, ok_response, notice_response, notice_reply, auth_key_plaintext,
}

pub error_reply-Carries :
    (e : Env) (s : Server) (i : ℕ) (c : Client) (m : MBuf) (ec : ℕ)
    → IsWf m
    → (r : MBuf) × (error_reply e s i c m ec ≡ returns (set_rbuf s i c (some r)))
      × Carries r (error_header e.clock (header m)) (error_attrs ec)
unfolding error_reply
error_reply-Carries e s i c m ec w =
    let (r, eq, carries) = mbuf_to_error_response-Carries e m ec w in (r, rw eq, carries)

ok-IsAttr : IsAttr MsgAttr.ok 0 null []
unfolding avtype_of attr_value
ok-IsAttr = record { kind = avtype_none; known = refl; encodes = refl }

ok_response-Carries :
    (e : Env) (m : MBuf)
    → IsWf m
    → (r : MBuf) × (ok_response e m ≡ returns r)
      × Carries r (response_header e.clock (header m)) ((MsgAttr.ok, []) ∷ [])
      × (r.bsize ≡ 48)
unfolding ok_response
ok_response-Carries e m w =
    let h = response_header e.clock (header m) in
    let (p, ep, bare) = mbuf_to_response-IsBare e m w in
    let (r, er, carries, n) =
      mbuf_addattrib-Carries e p h [] MsgAttr.ok 0 null [] (IsBare-Carries p h refl bare) ok-IsAttr
        (omega (arith, bare.empty)) in
    (r, rw ep er, carries, omega (arith, n, bare.empty))

abbrev pub notice_attrs : List ℕ → List (ℕ × List ℕ)
notice_attrs text = (MsgAttr.ok, []) ∷ (MsgAttr.notice, text ++ 0 ∷ []) ∷ []

pub notice_reply-Carries :
    (e : Env) (s : Server) (i : ℕ) (c : Client) (m : MBuf) (text : List ℕ)
    → IsWf m
    → length text < 4000
    → (r : MBuf) × (notice_reply e s i c m text ≡ returns (set_rbuf s i c (some r)))
      × Carries r (response_header e.clock (header m)) (notice_attrs text)
unfolding notice_reply notice_response
notice_reply-Carries e s i c m text w small =
    let h = response_header e.clock (header m) in
    let (p, ep, cp, np) = ok_response-Carries e m w in
    let (r, er, carries, n) =
      mbuf_addattrib-Carries e p h ((MsgAttr.ok, []) ∷ []) MsgAttr.notice (length text + 1)
        (str text) (text ++ 0 ∷ []) cp (notice-IsAttr text)
        (omega (arith, np, length-append text (0 ∷ []))) in
    (r, rw ep (rw er), carries)

challenge-IsAttr :
    IsAttr MsgAttr.challenge 12 (blob (auth_key_plaintext ++ 0 ∷ [])) (auth_key_plaintext ++ 0 ∷ [])
unfolding avtype_of attr_value
challenge-IsAttr = record { kind = avtype_blob; known = refl; encodes = refl }

abbrev challenge_attrs : List (ℕ × List ℕ)
challenge_attrs = (MsgAttr.challenge, auth_key_plaintext ++ 0 ∷ []) ∷ []

-- The reply of the LOGIN request of a registered user.
challenge-Carries :
    (e : Env) (m : MBuf)
    → IsWf m
    → (r : MBuf) × ((mbuf_to_response e m >>= λ m1.
          mbuf_addattrib e m1 MsgAttr.challenge 12 (blob (auth_key_plaintext ++ 0 ∷ [])))
        ≡ returns r)
      × Carries r (response_header e.clock (header m)) challenge_attrs
challenge-Carries e m w =
    let h = response_header e.clock (header m) in
    let (p, ep, bare) = mbuf_to_response-IsBare e m w in
    let (r, er, carries, n) =
      mbuf_addattrib-Carries e p h [] MsgAttr.challenge 12 (blob (auth_key_plaintext ++ 0 ∷ []))
        (auth_key_plaintext ++ 0 ∷ []) (IsBare-Carries p h refl bare) challenge-IsAttr
        (omega (arith, bare.empty)) in
    (r, rw ep er, carries)
