-- ===== src/Client/CommandLine.antt =====
-- cltmain.c, `process_stdin`: how a line is cut into arguments and the command is looked up.
use frelay.Common.{ℕ, zero, suc, ◌+◌, ◌-◌, List, [], ◌∷◌, length, take, drop, codes}
use frelay.Common.{Option, none, some, ◌&&◌, ◌==◌, if◌then◌else◌, is_zero}
use frelay.Strings.{is_space, skip_space, strnicmp}

-- The text up to the closing quotation mark, and what stands behind it. A backslash keeps the
-- quotation mark that follows it, and stays in the text.
unfoldable pub quoted : List ℕ → List ℕ × List ℕ
quoted [] = ([], [])
quoted (c ∷ []) = if c == b'"' then ([], []) else (c ∷ [], [])
quoted (c ∷ d ∷ s) =
    let (t, r) = quoted s in
    let (u, q) = quoted (d ∷ s) in
    if c == b'"'
    then ([], d ∷ s)
    else if c == b'\\' && d == b'"'
    then (c ∷ d ∷ t, r)
    else (c ∷ u, q)

-- The text up to white space, and what follows.
unfoldable pub word : List ℕ → List ℕ × List ℕ
word [] = ([], [])
word (c ∷ s) = let (t, r) = word s in if is_space c then ([], c ∷ s) else (c ∷ t, r)

-- An argument: its text, and the number of characters from its start to the end of the line.
pub record Arg : Type 0 where
  pub text : List ℕ
  pub left : ℕ

-- The loop `for ( a = 0; *cp && a < MAX_ARG; ++a )`.
unfoldable pub tokens : ℕ → List ℕ → List Arg
tokens zero s = []
tokens (suc n) [] = []
tokens (suc n) (c ∷ s) =
    let q = c == b'"' in
    let (t, r) = if q then quoted s else word (c ∷ s) in
    record { text = t; left = if q then length s else length (c ∷ s) } ∷ tokens n (skip_space r)

abbrev max_arg : ℕ
max_arg = 10

unfoldable pub split_line : List ℕ → List Arg
split_line line = tokens max_arg (skip_space line)

-- `aline + ( arg[i] - arg[0] )` for the argument `x`, where `aline` is cut off at the end of the
-- last argument, less the start of the first.
unfoldable pub rest_of_line : List ℕ → Arg → Arg → Arg → List ℕ
rest_of_line line first x last =
    let from = first.left - x.left in
    let end = first.left - last.left + length last.text in drop from (take end line)

pub data Cmd : Type 0 where
  accept cd cmd connect disconnect drop_ exit help list login logout offer peerlist ping : Cmd
  pwd register remove sh : Cmd

-- The names of `cmd_list`.
abbrev pub cmd_list : List (List ℕ × Cmd)
cmd_list =
    (codes "?", help)
    ∷ (codes "!", sh)
    ∷ (codes "^", cmd)
    ∷ (codes "accept", accept)
    ∷ (codes "bye", exit)
    ∷ (codes "cd", cd)
    ∷ (codes "close", disconnect)
    ∷ (codes "cmd", cmd)
    ∷ (codes "connect", connect)
    ∷ (codes "delete", remove)
    ∷ (codes "disconnect", disconnect)
    ∷ (codes "drop", drop_)
    ∷ (codes "exit", exit)
    ∷ (codes "help", help)
    ∷ (codes "lcd", cd)
    ∷ (codes "list", list)
    ∷ (codes "login", login)
    ∷ (codes "logout", logout)
    ∷ (codes "offer", offer)
    ∷ (codes "open", connect)
    ∷ (codes "peerlist", peerlist)
    ∷ (codes "ping", ping)
    ∷ (codes "pwd", pwd)
    ∷ (codes "quit", exit)
    ∷ (codes "register", register)
    ∷ (codes "remove", remove)
    ∷ (codes "sh", sh)
    ∷ (codes "who", peerlist)
    ∷ []

-- `cmd` is the command found so far. `none` is an ambiguous one.
unfoldable pub find_cmd : List ℕ → List (List ℕ × Cmd) → Option Cmd → Option (Option Cmd)
find_cmd arg [] cur = some cur
find_cmd arg ((name, c) ∷ more) cur =
    let first = find_cmd arg more (some c) in
    let rest = find_cmd arg more cur in
    if is_zero (strnicmp name arg (length arg))
    then elim cur [ none ↦ first | some d ↦ none ]
    else rest
