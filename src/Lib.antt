-- ===== src/Lib.antt =====
-- A model of the PostgreSQL REST adapter for the G-WAN server: servlets that turn requests into
-- SQL, a library that checks texts, sends queries and keeps sessions, and proofs about both.
--
-- Requests come to the `main` of a servlet, which gives its table of endpoints to exec_endpoint.
-- That looks up the session, chooses the endpoint by method and command, and awaits the
-- database's response when the endpoint returns 0. An endpoint checks its arguments with the
-- validators, builds a query in a buffer and sends it with db_send, or ends with db_error. A
-- timer removes sessions that were not used.
--
-- The files, and the code that each models:
-- - Prelude: names of the libraries, Boolean tests, lists over native numbers, and C strings as
--   lists of bytes with a null pointer as `none`.
-- - Gwan and Gwan/Sprintf: the server's functions (include/gwan.h, include/xbuffer.h) as an
--   interface, with C's formatted output as their reference.
-- - Utils: libraries/postrest/utils.c. Validate has strword, isString, isToken, isUUID, isBase64,
--   strcsv and strdigit (strword, is_string, is_token, is_uuid, is_base64, strcsv, strdigit);
--   UrlDecode has url_decode; Text has unquote, strjoin and stringToLowercase; Headers has
--   get_headers and get_header_value; Atoi is the C library's atoi.
-- - Sql: how PostgreSQL takes a query apart into literals, comments and statements, a reference
--   that is independent of the code.
-- - Reply: db_error (libraries/postrest/db.c) and bad_request (libraries/postrest/utils.c).
-- - Db: libpq and libevent as an interface, db_wait, db_send and db_response
--   (libraries/postrest/db.c). Db/Response has the rows, Db/Response/Loop the loop over results
--   as steps between its two labels, Db/Response/Stream how a connection delivers results.
-- - Endpoint: exec_endpoint (libraries/postrest/utils.c).
-- - Csp: the endpoints of csp/document.c, csp/collection.c, csp/index.c, csp/graph.c,
--   csp/database.c and csp/query.c. Each is a function from a request to an Action, which
--   `perform` carries out on the state of reply, response headers and connection. Servlets has
--   their tables.
-- - Csp/Session: csp/session.c and db_free: session_get, session_login, session_logout and main,
--   over an interface of the configuration, the clock and libpq's blocking connection. Here
--   db_session is run in front of exec_endpoint, as the code does.
-- - Csp/Hawk: csp/hawk.c and csp/oauth.c, whose functions are the same: hawk_parse_token,
--   hawk_parse_artifacts, get_all, get_authorize, get_token and the tables.
-- - Start: the configuration of init.c and the stages of handlers/main.c; Start/Setup is main of
--   init.c and init of handlers/main.c; Start/Urls is where a login connects to with that
--   configuration.
-- - Session: Session/Close has db_close and db_isConnected; the others are check_session,
--   db_timer_cb and db_session (libraries/postrest/db.c), over an interface of G-WAN's table of
--   keys and values. Session/Life is the table under any sequence of logins, requests, calls of
--   the timer and the clock, with a reference that keeps the last use of each key.
-- - Sda: libraries/postrest/sda.c, a program that encrypts a text with a passphrase. Words has
--   its 32-bit arithmetic (safe_add, bit_rol, md5_cmn and the others), Arrays the growing blocks
--   (initArray, insertArray, initBuffer, pushBuffer) over what malloc gives, Base64 decode,
--   b64_to_array and array_to_form, Packing compress8to7 and expand7to8, Md5 core_md5, str2binl
--   and xorArray, Archive pn, crypt, initSDA, encrypt, decrypt and main. Bits is the arithmetic
--   of bit operations.
-- - Ws: libraries/ws.c, one call of the script (serve) and the calls for a sequence of requests,
--   over an interface of the search in a buffer and of SHA-1.
-- - Tests: a server, a connection and a table of sessions that fulfil the interfaces, and the
--   theorems applied to them.
--
-- Choices. A char is signed, as on the platform of the server. Numbers of 32 and 64 bits are
-- taken modulo 2 ^ 32 and 2 ^ 64 where the code's types cut them. A write past a buffer, a read
-- through a null pointer and a negative length are values of their own (crash, undefined,
-- invalid), not results. Loops are recursions on the text, on the list, or on the count that the
-- code counts down (four waits in db_send, eight headers in get_header_value), so that none of
-- them needs fuel; the loop of db_response takes as many steps as the connection lets it wait, so
-- its steps are counted up to a number, and Db/Response/Stream says how many a stream of results
-- takes; the digits of a number are printed with a bound of twenty, enough for 64 bits. The loop
-- of pn, which need not end, has a bound that its callers pass on. Where a value is printed by a
-- conversion that C does not define, or a number with the sign bit by %d, nothing is assumed of
-- the text. A number that no int holds wraps in atoi, where C leaves it undefined; an entry of
-- argv below argc is a text; strings of a JSON tree are read as they were after jsn_free; and one
-- time is taken for a whole call of db_timer_cb, where check_session asks for it anew at each
-- item. Where sda.c computes with int, a number is its 32-bit pattern, overflow wraps and a shift
-- to the right copies the sign; its blocks of memory are lists of cells, those of a new block
-- hold anything, and a read or a write outside a block, like one behind the NUL of a text, is
-- `none`. Freeing memory and debug output are left out, and allocation succeeds.
--
-- Not modelled: the calls of db_response behind the servlets of sessions and of Hawk, which no
-- endpoint of theirs reaches, are a parameter there; what csp/hawk.c and csp/oauth.c only print;
-- the clean-up in handlers/main.c, which frees memory; the globals and the table of
-- libraries/postrest/sda.c that nothing uses.
pub mod Prelude
pub mod Utils
pub mod Gwan
pub mod Sql
pub mod Reply
pub mod Db
pub mod Endpoint
pub mod Csp
pub mod Session
pub mod Start
pub mod Sda
pub mod Ws
pub mod Tests
