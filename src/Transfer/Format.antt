-- ===== src/Transfer/Format.antt =====
-- transfer.c, `transfer_itostr` and `human_timespan`: a transfer as a text for the console.
-- Floating-point numbers and calendar dates are inputs.
use frelay.Common.{ℕ, ◌+◌, ◌-◌, ◌/◌, ◌%◌, ◌^◌, List, [], ◌∷◌, ◌++◌, length, take, codes}
use frelay.Common.{Option, none, some, Bool, ◌&&◌, ltb, ◌==◌, if◌then◌else◌}
use frelay.Common.{Outcome, returns, faults, ◌>>=◌}
use frelay.Config.{decimal}
use frelay.Transfer.{Transfer}
use frelay.Transfer.Ids.{itostr_ids}

-- `human_size`, and `strftime` with `localtime_r`; the time.
pub record Formats : Type 0 where
  pub human_size : ℕ → List ℕ
  pub local_time : ℕ → List ℕ
  pub time : ℕ

-- One `snprintf` of a number with its unit; a part that is 0 is left out.
abbrev part : Bool → ℕ → ℕ → List ℕ
part negative n unit =
    if n == 0
    then []
    else if negative
    then b'-' ∷ (decimal 20 n ++ unit ∷ [])
    else decimal 20 n ++ unit ∷ []

-- A `time_t` is a 64-bit word; the days fit an `int`. Each quotient and remainder has its sign.
unfoldable pub human_timespan : ℕ → List ℕ
human_timespan t =
    let negative = ltb (2 ^ 63 - 1) t in
    let u = if negative then 2 ^ 64 - t else t in
    let s = u % 60 in
    let m = u / 60 % 60 in
    let h = u / 3600 % 24 in
    let d = u / 86400 in
    part negative d b'd'
    ++ (part negative h b'h'
        ++ (part negative m b'm'
            ++ (if s == 0 && m + h + d == 0 then b'0' ∷ b's' ∷ [] else part negative s b's')))

-- `now - t` as a 64-bit word.
abbrev elapsed : ℕ → ℕ → ℕ
elapsed now t = (now + 2 ^ 64 - t) % 2 ^ 64

-- glibc prints a null pointer so.
abbrev pub text_of : Option (List ℕ) → List ℕ
text_of none = codes "(null)"
text_of (some s) = s

-- The `switch`: what stands for `%c`.
unfoldable pub item : Formats → Transfer → ℕ → List ℕ
item f t c =
    if c == b'i'
    then itostr_ids t
    else if c == b'n'
    then text_of t.name
    else if c == b'N'
    then text_of t.partname
    else if c == b'o'
    then decimal 20 t.offset ++ b'B' ∷ []
    else if c == b'O'
    then f.human_size t.offset
    else if c == b's'
    then decimal 20 t.size ++ b'B' ∷ []
    else if c == b'S'
    then f.human_size t.size
    else if c == b'd'
    then decimal 20 (elapsed f.time t.tstart) ++ b's' ∷ []
    else if c == b'D'
    then human_timespan (elapsed f.time t.tstart)
    else if c == b'a'
    then decimal 20 (elapsed f.time t.tact) ++ b's' ∷ []
    else if c == b'A'
    then human_timespan (elapsed f.time t.tact)
    else if c == b't'
    then decimal 20 t.tstart ++ b's' ∷ []
    else if c == b'T'
    then f.local_time t.tstart
    else c ∷ []

-- What each round of the loop prints. A `%` at the end is followed by the terminator, and the loop
-- goes on behind it.
unfoldable pub pieces : Formats → Transfer → List ℕ → Outcome (List (List ℕ))
pieces f t [] = returns []
pieces f t (c ∷ []) = if c == b'%' then faults else returns ((c ∷ []) ∷ [])
pieces f t (c ∷ d ∷ fmt) =
    let behind = pieces f t fmt in
    let next = pieces f t (d ∷ fmt) in
    if c == b'%'
    then (behind >>= λ r. returns (item f t d ∷ r))
    else (next >>= λ r. returns ((c ∷ []) ∷ r))

-- `n += snprintf( buf + n, size - n, … )` for each piece: `n` counts what would have been written.
-- Past the size, `size - n` wraps round and `buf + n` lies behind the buffer.
unfoldable pub put_pieces : ℕ → ℕ → List ℕ → List (List ℕ) → Outcome (List ℕ)
put_pieces size n buf [] = returns buf
put_pieces size n buf (p ∷ more) =
    let rest = put_pieces size (n + length p) (buf ++ take (size - n - 1) p) more in
    if ltb size n then faults else rest

abbrev default_format : List ℕ
default_format = codes "%i '%n' %o/%s %d %a"

abbrev format_of : Option (List ℕ) → List ℕ
format_of none = default_format
format_of (some fmt) = fmt

-- `none` is a null pointer for the format.
unfoldable pub transfer_itostr : Formats → ℕ → Option (List ℕ) → Transfer → Outcome (List ℕ)
transfer_itostr f size fmt t = pieces f t (format_of fmt) >>= put_pieces size 0 []
