-- ===== src/Lib.antt =====
-- silksocks: a SOCKS5 proxy manager. A client logs in with a name that carries the address of an
-- upstream proxy; the server checks the password against a database, reads the request, logs in at
-- that proxy with credentials from the database, passes the request on, and then relays bytes.
--
-- The parts and the files that model them:
-- - Base: lists, options, tests and arithmetic over the native numbers, shared by all.
-- - Cache (cache.c): the two credential caches. Cache/Table.antt has what both share, a table with
--   linear probing and doubling; Cache/Ip.antt the functions on `struct cache_ip`, Cache/App.antt
--   those on `struct cache_ap`; Cache/Hash.antt `hash32` and `hashStr` with their wrap-around. A resize
--   counts the slots with an `int`, which overflows from 2 ^ 31 on: then it has no result. The
--   loops run for as many rounds as there are slots, which is shown to be enough for a valid cache;
--   `cache_putip` and `cache_resizeip` call each other, and two calls deep is shown to be enough.
-- - HashTbl (hashtbl.c): the DNS table, its buckets and its pool of entries, as lists of nodes, for
--   records of 4 bytes, the only ones that the program has (others the macro `he_idx` does not fit).
--   HashTbl/Layout.antt has the layout of the entries in memory.
-- - SilkIo (silkio.c): `readn_timeo` and `writen_timeo` on scripts of what the kernel does, call by
--   call. Read.antt and Write.antt say what they mean for the stream, Exact.antt serves the callers.
-- - ConnectNonb (connect_nonb.c): the poll build and the blocking build of `connect_nonb`.
-- - Text: what the program uses of the C library on strings and lines.
-- - Db (db.c): the two queries, with the ODBC driver as a parameter; Db/Init.antt has `sqlinit` and
--   `sqlclose` with an account of the driver's handles.
-- - Listen (tcp_listen.c): `tcp_listen` over the addresses of `getaddrinfo`.
-- - Negotiate (negotiate.c): the relay in its poll build, Negotiate/Select.antt and
--   Negotiate/Splice.antt for the other two. Each round of the loop takes the system's answers from a
--   list, so that a result for all lists holds at every point of every run.
-- - Socks (socks.c, host_serv.c): one connection. World.antt has its state and the early returns,
--   Handshake.antt the method, the login, the redirect address and the password, Request.antt the
--   request with the DNS table, Upstream.antt the proxy's side, Run.antt `socks5_run`. Connect.antt and
--   Whole.antt are about the dialogue with a proxy and with a client from end to end, Destination.antt
--   and Domain.antt about what a client can ask for, Lookup.antt about what the caches keep of the
--   database, Shared.antt about the tables that all connections share.
-- - Main (main.c, proxy.c): the options, `server_init` and the accept loop, composed from the parts;
--   Main/Works.antt puts the connections behind it, one after another, on the tables that they share.
-- - Log (error.c, error.h): the lines of the log, their levels and buffers.
-- - UrlQueue (socksload/urlqueue.c): the load generator's queue of addresses, on a heap.
-- - Load (socksload/main.c): the load generator. Load.antt reads its list of proxies, with as many
--   rounds as the file has bytes, which are enough since each round reads one at least. Load/Start.antt
--   is `main`, Load/Fire.antt what each of its threads does, and Load/Fire/Login.antt relates it to the
--   server.
-- - Href (socksload/href.c): the search of a page for links, with two rounds for each byte and two more,
--   which are enough.
--
-- A socket's script may stop at any point, which stands for silence until the timeout. Bytes are
-- numbers; machine words wrap where the code can reach the end of one. The functions on shared tables
-- hold a mutex from start to end, so each is one step. The build is the one of the Makefile: with the
-- database (USEDB), `poll` in connect_nonb.c and in negotiate.c (connect_nonb.c does not compile for `select`); the log lines of DEBUG are left out.
-- Parameters are `malloc` for the tables and the nodes of the load generator, the ODBC driver, `getaddrinfo`, `inet_pton`, `strtol`, `getsockname`,
-- `socket`, `getopt`, `fork`, files, `accept`, `vsnprintf`, the clock, PCRE2, libcurl with the `select`
-- that the load generator waits in, and in `socks5_run` the relay, for which Main/Works.antt takes the
-- one of Negotiate. Of the threads of the load generator one is modelled; they share a counter and the
-- list of proxies.
--
-- `strdup` and `strndup`, whose results the program never tests, are taken to be given their memory. A
-- copy by `memcpy` that goes beyond its buffer is a crash.
--
-- Not modelled: the thread pool (thpool.c, a copy of another library, to which work is handed in order),
-- the text of the time (gf_time.c), the text of a status (in socks.c, which nothing calls), the table of
-- timeouts (timeo.c), and the test programs, which are input, output and calls of other libraries.
pub mod Base
pub mod Cache
pub mod HashTbl
pub mod SilkIo
pub mod ConnectNonb
pub mod Db
pub mod Text
pub mod Listen
pub mod Main
pub mod UrlQueue
pub mod Log
pub mod Load
pub mod Href
pub mod Negotiate
pub mod Socks
