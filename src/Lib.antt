-- ===== src/Lib.antt =====
-- Verification of a SOCKS5 proxy, a single-threaded server over a selector. A client's bytes are
-- received into a buffer (src/shared/buffer.c) and fed to one of three parsers
-- (src/server/socks5/parsers), which run on a table-driven engine (src/server/utils/parser.c): the
-- handshake, the user name and password, and the request. A connection moves through its states on
-- a state machine (src/server/utils/stm.c), whose events come from the selector
-- (src/server/utils/selector.c). Names and passwords stand in a hash table
-- (src/server/utils/auth_table.c); an administrator reads counters and a register of accesses
-- (src/server/s5admin) and changes settings (src/server/server_data.c).
--
-- The files. Buffer: buffer.c, with its functions under their names; a pointer into the storage is
-- an index, a failed assert is none. Engine: parser.c and include/parser.h; an action is a
-- function on the event. Parsers.Handshake, Parsers.Auth and Parsers.ConnReq: the tables of
-- states, the parsers' records, and their init and feed functions; a feed function returns the new
-- parser and the state. Where only the memory for the engine is missing, init answers none and the
-- source a parser with no engine: either is read through a null pointer at the first byte, and is
-- freed without harm before it. Parsers.Outcome: the loop that feeds bytes until the parser is
-- done or fails. Users: auth_table.c; a chain is a list, latest entry first. Stm: what a call
-- comes to (it returns, aborts, reads what is not there or is left unfinished), and stm_init of
-- stm.c; the pointer to the current state is an index. Selector and Selector.Loop: selector.c; the
-- functions of a handler act on the selector and on a world of any type, and an item's descriptor
-- is none where it is not in use. Admin.AccessRegister, Admin.Metrics and Admin.ServerData:
-- access_register.c, metrics.c and server_data.c. Common: tests, lists, slices and bits over
-- native numbers. Replies: socks5_responses.c and get_sock_data of src/server/utils/netutils.c,
-- with the bytes of the struct as a little-endian machine lays them out; what stands in memory
-- that no one wrote is an argument. Tests: runs on concrete inputs.
--
-- Integers: a field of type uint8_t, uint16_t or uint64_t keeps its wrap-around (% 2 ^ w); the
-- hash of a name is an unsigned long of 64 bits with sign-extended characters. What malloc leaves
-- in an array, and what lies behind the class table of 255 entries, are arguments of the models;
-- an allocation may fail where a flag says so. The loop of `next_capacity` runs on fuel: n turns
-- are enough, since each halves its number.
--
-- Socks5: socks5.c, socks5_stm.c and states_handlers of src/server/socks5, with what they use of
-- src/server/utils/netutils.c and src/server/connection_helper.c. Socks5.World holds the state:
-- one connection (none once it is freed), the users and settings, the selector, the answers that
-- the system will give as lists, one for each call, and the record of what was sent and closed. A
-- handler is an action on it, and returns, aborts, reads or writes outside an object, or is
-- unfinished. Socks5.Machine is the rest of stm.c, on that world, since a hook of the connection
-- calls the machine again and may free it; Socks5.Write, Socks5.Connect, Socks5.Read, Socks5.Copy,
-- Socks5.Events and Socks5.Accept are the handlers, the other modules of Socks5 are for proofs.
-- The loop over a buffer runs on the number of bytes that wait, which is enough since each turn
-- reads one. The thread that resolves a name is a step of its own. Admin.Command:
-- src/shared/s5admin_parser.c; a line is its characters up to the terminator, and strtok_r returns
-- the rest of the line.
--
-- The administrator. Admin.Print: the texts that metrics.c, access_register.c and auth_table.c
-- write in an array, with snprintf. Admin.Config: src/server/s5admin/config.c; a handler takes the
-- parsed command and the array for the response, and returns that array. Where a text fills the
-- first array of the command, it runs on into the second, which stands behind it; a text that
-- fills the second ends there. Admin.Session: src/server/s5admin/s5admin.c; the connection of an
-- administrator stands in the state of Socks5.World, none once it is freed. What strtok_r leaves
-- of a line that it cut is an argument. A search that passes the end of the array is outside. The
-- address that passive_accept writes lands in the input array, for pointers of 8 bytes.
--
-- Args: src/server/utils/args.c and src/admin_client/args_admin.c. What getopt_long answers is an
-- argument, a list of options with their texts and what it leaves over; an exit of the process is
-- a value. Common.Strtol: strtol and atoi of glibc.
--
-- AdminClient: the loop of src/admin_client/admin_client.c. What is typed and what write answers
-- are lists, and what read answers is an unending sequence. A turn is a function, and the loop
-- runs on the number of characters typed, and one more: each turn but the last reads a character.
-- The loop over the reads of a reply runs on fuel 1, which is enough since it never takes a second
-- turn.
--
-- Not modelled: the set-up of sockets and signals in src/server/server.c and
-- src/server/connection_helper.c, the connection and the main function of the client, the blocking
-- helpers of sockets and sockaddr_to_human, the freeing of memory but for a connection, and all
-- that only logs. In the selector, the signals, `pselect` and the mutex. What getaddrinfo,
-- connect, getsockopt, accept, recv and send answer is an argument. Of the connections one client
-- and one administrator are followed; the others are items of the selector.
pub mod Common
pub mod Buffer
pub mod Engine
pub mod Parsers
pub mod Users
pub mod Admin
pub mod Stm
pub mod Selector
pub mod Replies
pub mod Socks5
pub mod Args
pub mod AdminClient
pub mod Tests
