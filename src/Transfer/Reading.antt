-- ===== src/Transfer/Reading.antt =====
-- transfer.c, `transfer_strtoi`: the ids that `transfer_itostr` prints are read back.
use frelay.Common.{ℕ, ◌^◌, ◌<◌, ◌≡◌, refl, sym, ap, ◌∙◌, arith, List, [], ◌∷◌, ◌++◌, length, All}
use frelay.Common.{Option, none, some, true, false, ◌==◌, ◌&&◌, ◌||◌, ltb}
use mathlib.Core.List.{append-nil}
use frelay.Strings.{skip_space, is_space, hex_value, hex_digits, clamp64}
use frelay.Strings.Hex.{
  IsDigit, IsDigit-hex_value, IsDigit-is_space, hex_word-IsDigit, hex_digits-hex_word,
  length-hex_word,
}
use frelay.UserDb.{hex_word}
use frelay.Transfer.{Transfer, TransferType, ttype_offer, ttype_download, scan_comma, toupper}
use frelay.Transfer.Ids.{
  scan_digits, scan_unsigned, scan_signed, scan_x, scan_pair, scan_triple, typed, transfer_strtoi,
  itostr_ids, type_letter, untyped, Ids,
}

scan_x-digits :
    (l tail : List ℕ)
    → All IsDigit l
    → 1 < length l
    → scan_x (l ++ tail) ≡ some (clamp64 (hex_digits 0 (l ++ tail)).0, (hex_digits 0 (l ++ tail)).1)
unfolding scan_x skip_space scan_signed scan_unsigned scan_digits
scan_x-digits (c ∷ x ∷ s) tail (hc, (hx, h)) long =
    let (v, ev) = IsDigit-hex_value c hc in
    let minus : (c == 45) ≡ false = ground arith in
    let plus : (c == 43) ≡ false = ground arith in
    let prefix : (c == 48 && (x == 120 || x == 88)) ≡ false = ground arith in
    let skip : skip_space (c ∷ x ∷ (s ++ tail)) ≡ c ∷ x ∷ (s ++ tail) =
      rw (IsDigit-is_space c hc, skip_space) refl in
    let unsigned : scan_unsigned clamp64 (c ∷ x ∷ (s ++ tail))
        ≡ some (
          clamp64 (hex_digits 0 (c ∷ x ∷ (s ++ tail))).0,
          (hex_digits 0 (c ∷ x ∷ (s ++ tail))).1,
        ) =
      rw (prefix, scan_unsigned) (rw (ev, scan_digits) refl) in
    rw (skip, scan_x) (rw (minus, scan_signed) (rw plus unsigned))
scan_x-digits [] tail h long = absurd (omega arith)
scan_x-digits (c ∷ []) tail h long = absurd (omega arith)

scan_x-hex_word :
    (v : ℕ) (tail : List ℕ)
    → v < 2 ^ 64
    → hex_digits v tail ≡ (v, tail)
    → scan_x (hex_word 16 v ++ tail) ≡ some (v, tail)
unfolding clamp64
scan_x-hex_word v tail small stops =
    let inside : ltb v (2 ^ 64) ≡ true = ground arith in
    scan_x-digits (hex_word 16 v) tail (hex_word-IsDigit 16 v) (omega (arith, length-hex_word 16 v))
    ∙ ap (λ r. some (clamp64 r.0, r.1)) (hex_digits-hex_word 16 v tail small ∙ stops)
    ∙ rw inside refl

scan_pair-printed :
    (r o : ℕ)
    → r < 2 ^ 64
    → o < 2 ^ 64
    → scan_pair (hex_word 16 r ++ (b',' ∷ hex_word 16 o)) ≡ (some r, some o)
unfolding scan_pair scan_comma hex_digits hex_value
scan_pair-printed r o small_r small_o =
    let second : scan_x (hex_word 16 o) ≡ some (o, []) =
      ap scan_x (sym (append-nil (hex_word 16 o))) ∙ scan_x-hex_word o [] small_o refl in
    rw (scan_x-hex_word r (b',' ∷ hex_word 16 o) small_r refl, scan_pair) (rw second refl)

-- The ids of a transfer as they are shown to the user are read back as they were: the type, the
-- remote id and the id of the offer, whatever these are.
pub transfer_strtoi-itostr_ids :
    (t : Transfer)
    → t.rid < 2 ^ 64
    → t.oid < 2 ^ 64
    → transfer_strtoi true (itostr_ids t) ≡ some (3, some t.type, t.rid, t.oid)
unfolding transfer_strtoi itostr_ids scan_triple typed skip_space is_space toupper scan_comma
transfer_strtoi-itostr_ids t small_r small_o = by_type t.type
  where
    ids : scan_pair (hex_word 16 t.rid ++ (b',' ∷ hex_word 16 t.oid)) ≡ (some t.rid, some t.oid)
    ids = scan_pair-printed t.rid t.oid small_r small_o

    text : List ℕ
    text = hex_word 16 t.rid ++ (b',' ∷ hex_word 16 t.oid)

    by_ids : List ℕ → ℕ → Option ℕ × Option ℕ → Option Ids
    by_ids s letter p = elim p.0 [
      | none ↦ untyped 0 s
      | some r1 ↦ elim p.1 [ none ↦ untyped r1 s | some o1 ↦ typed true letter r1 o1 ]
    ]

    by_type :
        (y : TransferType)
        → transfer_strtoi true (type_letter y ∷ b',' ∷ text) ≡ some (3, some y, t.rid, t.oid)
    by_type ttype_offer = ap (by_ids (b'O' ∷ b',' ∷ text) b'O') ids
    by_type ttype_download = ap (by_ids (b'D' ∷ b',' ∷ text) b'D') ids
