-- ===== src/Transfer/Printing.antt =====
-- transfer.c, `transfer_itostr`: when the text fits the buffer.
use frelay.Common.{ℕ, ◌+◌, ◌-◌, ◌≤◌, ◌≡◌, refl, ap, arith, List, [], ◌∷◌, ◌++◌, length, take}
use frelay.Common.{length-append, some, returns, codes, ltb, false}
use frelay.UserDb.{hex_word}
use frelay.Strings.Hex.{length-hex_word}
use frelay.Transfer.{Transfer}
use frelay.Transfer.Ids.{itostr_ids}
use frelay.Transfer.Format.{Formats, text_of, item, pieces, put_pieces, transfer_itostr}

abbrev total : List (List ℕ) → ℕ
total [] = 0
total (p ∷ ps) = length p + total ps

-- The last piece may be cut off; the others must leave room for the position behind them.
put_pieces-fits :
    (size n : ℕ) (buf : List ℕ) (ps : List (List ℕ)) (last : List ℕ)
    → n + total ps ≤ size
    → (out : List ℕ) × (put_pieces size n buf (ps ++ last ∷ []) ≡ returns out)
unfolding put_pieces
put_pieces-fits size n buf [] last fits =
    let inside : ltb size n ≡ false = ground arith in
    (buf ++ take (size - n - 1) last, rw inside refl)
put_pieces-fits size n buf (p ∷ ps) last fits =
    let inside : ltb size n ≡ false = ground arith in
    let (out, e) =
      put_pieces-fits size (n + length p) (buf ++ take (size - n - 1) p) ps last (omega arith) in
    (out, rw inside e)

length-itostr_ids : (t : Transfer) → length (itostr_ids t) ≡ 35
unfolding itostr_ids
length-itostr_ids t = omega (
  arith,
  length-append (hex_word 16 t.rid) (b',' ∷ hex_word 16 t.oid),
  length-hex_word 16 t.rid,
  length-hex_word 16 t.oid,
)

-- The formats of the lines on a transfer that goes on, and on one that has ended.
pub download_line-fits :
    (f : Formats) (t : Transfer) (name : List ℕ)
    → t.name ≡ some name
    → 42 + length name + length (f.human_size t.offset) + length (f.human_size t.size) ≤ 4096
    → (out : List ℕ) × (transfer_itostr f 4096 (some (codes "%i '%n' %O/%S %D")) t ≡ returns out)
unfolding transfer_itostr pieces item
download_line-fits f t name en fits =
    let name_length : length (item f t b'n') ≡ length name = ap (λ x. length (text_of x)) en in
    let ps =
      itostr_ids t
      ∷ codes " "
      ∷ codes "'"
      ∷ item f t b'n'
      ∷ codes "'"
      ∷ codes " "
      ∷ f.human_size t.offset
      ∷ codes "/"
      ∷ f.human_size t.size
      ∷ codes " "
      ∷ [] in
    let (out, e) =
      put_pieces-fits 4096 0 [] ps (item f t b'D')
        (omega (arith, length-itostr_ids t, name_length)) in
    (out, e)

pub offer_line-fits :
    (f : Formats) (t : Transfer) (name : List ℕ)
    → t.name ≡ some name
    → 41 + length name + length (f.human_size t.size) ≤ 4096
    → (out : List ℕ) × (transfer_itostr f 4096 (some (codes "%i '%n' %S %D")) t ≡ returns out)
unfolding transfer_itostr pieces item
offer_line-fits f t name en fits =
    let name_length : length (item f t b'n') ≡ length name = ap (λ x. length (text_of x)) en in
    let ps =
      itostr_ids t
      ∷ codes " "
      ∷ codes "'"
      ∷ item f t b'n'
      ∷ codes "'"
      ∷ codes " "
      ∷ f.human_size t.size
      ∷ codes " "
      ∷ [] in
    let (out, e) =
      put_pieces-fits 4096 0 [] ps (item f t b'D')
        (omega (arith, length-itostr_ids t, name_length)) in
    (out, e)
