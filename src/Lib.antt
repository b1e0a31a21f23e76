-- ===== src/Lib.antt =====
-- Verification of frelay, a relay server and its message protocol.
--
-- The program's parts. A client and the server exchange messages: a header of 40 bytes and a list
-- of attributes (message.c, message.h, lib/bendian.h, statcodes.c). The server (srvmain.c) keeps an
-- array of connected clients; `handle_io` reads and writes their sockets, puts messages together,
-- and hands each complete one to `process_msg`, which answers requests to the server, passes
-- messages on from client to client, and keeps the accounts in the user database (srvuserdb.c).
-- Outgoing messages wait in one queue for each client.
--
-- The files.
--   Common: names of the libraries, tests and conditionals on numbers, lists and byte ranges, and
--     `Outcome`, what a call can do: return, end the process by `die_if`, or leave defined
--     behaviour (a read behind a buffer, a null pointer handed to a string function).
--   Bytes, Bytes.Order: lib/bendian.h. A word in memory is its bytes in the order of the host.
--   Status: statcodes.c. Strings, Strings.Compare, Strings.Hex: lib/stricmp.c and the functions of <string.h>
--     and <stdlib.h> that the program uses.
--   Message: message.h and message.c, one definition for each function and macro, under its name.
--     An `mbuf_t` is a record of `bsize`, `boff` and the bytes `b`; new memory holds whatever the
--     heap held, which is an argument (`Env`), as is the clock. Children: Header (the seven
--     fields), Buffer (sizes, composing, responses), Append (adding attributes), Decode (reading
--     them), Class (message classes), RoundTrip.
--   UserDb: srvuserdb.c. The list, the id counter, and the file as its bytes. Children: Invariant,
--     Lookup, Load, Lines, Saved.
--   Config: cfgparse.c.
--   Transfer: transfer.c. The list of offers and downloads; children: FileAccess (the files behind
--     them and the names of new ones), Ids (ids as text), Format (`transfer_itostr`), and for the
--     theorems Removal, Matching, Printing, Reading, Names.
--   Server: srvmain.c, the client array and the operations on one client. Children: Requests (the
--     cases of `process_server_msg`), Dispatch (`process_msg` and the three functions under it), Io
--     (`handle_io` and `upkeep`), Motd (the message of the day), and for the theorems Stamp,
--     Answer, Access, Inversion, Admission, Registered, Delivered, Forward, Replies, Peers, Single,
--     Descriptors, Queues, Sending, Framing, Arrival, Reassembly.
--   Client: cltmain.c, the state of the client, its send queue and the requests that wait. Children:
--     Attributes (how messages are read and composed), Peers (requests from other clients), Replies
--     (responses), Dispatch (`process_srvmsg`), Io (`handle_srvio` and the upkeep of `main`),
--     CommandLine and Commands (`process_stdin`), and for the theorems Frame, ReplyFrame, Login,
--     Pending, Session, Wire, Serving, Receiving, Exchange, Rounds, Setup, Download, Completion,
--     Loops, Lookup, Stream. Exchange puts two clients together: the server between them does what
--     `relay` says, namely set the id of the sender, as `stamp` of Server.Dispatch does.
--   Runs: the results at concrete inputs.
--
-- How code corresponds to definitions. Functions that change the client array take the server, the
-- slot and the client in that slot, and give the new server. Null pointers are `none`; a file
-- descriptor of -1 is `none`; an `fd_set` is a test on descriptors. Text is a list of byte values
-- without its terminator. The machine is the one of a 64-bit little-endian host; the byte order is
-- an argument in Bytes. Words wrap around where the source lets them.
--
-- Fuel. The lines of a file are read with as much fuel as it has bytes, and each line takes at
-- least one; the loops over the client array count the slots that are left. The loops over the
-- attributes of a message take its size, and each attribute has eight bytes at least. The rounds of
-- `make_filenames` are counted down from the source's own bound.
--
-- Not modelled: the graphical interface (pygui), the options of the command line, sockets and name
-- resolution, the select loops of `main`, external commands, logging, and the generators of time
-- stamps and random numbers. System calls appear as inputs: what `read`, `write`, `open` and
-- `accept` gave. A line on the console is its prefix and the text that a peer sent with it; the
-- texts of transfers are modelled up to floating-point numbers and calendar dates, which are inputs.
-- Files that are created, written, renamed or unlinked are effects; what the system answers does not
-- depend on earlier ones, and closing a descriptor that the state does not keep leaves no trace.
-- `nset` of `handle_io` stops at 0 where the source may reach -1; both end the loop.
pub mod Common
pub mod Client
pub mod Bytes
pub mod Status
pub mod Message
pub mod Strings
pub mod UserDb
pub mod Config
pub mod Transfer
pub mod Server
pub mod Runs
