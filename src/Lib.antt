-- ===== src/Lib.antt =====
-- rs-serve, a remoteStorage server in C: a model of the server, its tools and its store of tokens, with
-- theorems.
--
-- The program. libevhtp parses a request and hands it to dispatch_storage (src/handler/dispatch.c) or
-- handle_webfinger (src/handler/webfinger.c). dispatch_storage looks up the user (src/common/user.c),
-- authorizes the request (src/handler/auth.c) with the authorization that is stored for its token
-- (src/common/auth.c, a Berkeley DB), and calls a handler of src/handler/storage.c. The handlers work on
-- the file system below `/home/<user>/<root>`, keep content types and ETags in extended attributes
-- (src/common/attributes.c), and list directories as JSON (src/common/json.c), which webfinger writes
-- too. The server starts by its command line (src/config.c, src/process/main.c) and logs
-- (src/common/log.c). The tokens are given and taken by the tools (src/tools) and, through the bindings
-- auth/bindings/auth.cc, by a web server in JavaScript; both use src/common/auth.c on the same database.
--
-- The files. Base holds the shared names; CString the functions of the C library on strings, which are
-- lists of bytes without their NUL.
--   Request, Response   what libevhtp and src/rs-serve.h give the handlers; src/handler/auth.c IS_READ
--   Config, User        src/config.h; src/common/user.c
--   DiskPath            make_disk_path of src/handler/storage.c, with its paths in Clean and Traversal
--   Auth, Auth/Codec    the records of src/common/auth.h, pack_authorization, unpack_authorization
--   Auth/Database       Berkeley DB as a parameter, with its laws, and an instance in memory
--   Auth/Store          add_, remove_, lookup_ and list_authorizations of src/common/auth.c
--   Auth/Store/Refines  the store as a map from users and tokens, changed by commands
--   Auth/Store/Commute  commands on different tokens, in either order
--   Auth/Handle         open_authorizations and close_authorizations, on the handle auth_db
--   Auth/Print          print_authorization, print_authorizations
--   Tools, Bindings     src/tools/*.c; auth/bindings/auth.cc; Tools/Tokens and Bindings/Agree are about them
--   Authorize           match_scope and authorize_request; Scopes, Grants and Bypass are about them
--   Json                src/common/json.c: the state is the output, the stack and its pointer; Document is
--                       the tree of a document, and Writer the calls for it
--   Webfinger           src/handler/webfinger.c; Answers is about what a GET answers
--   Posix               the system calls as a parameter, with what POSIX promises, and an instance in memory
--   Attributes, ContentType, Etag   src/common/attributes.c
--   Storage             src/handler/storage.c: Read (GET and HEAD), Put and Delete, each with its answers and
--                       its replies in child modules; RoundTrip is about a PUT and the GET after it, Others
--                       and the modules Spares about the files that a request does not name
--   Dispatch            src/handler/dispatch.c; Guard says what reaches the handlers, Keeps what changes files,
--                       and Permitted follows permitted requests to their replies
--   Options             src/config.c: the variables, what one option does (Apply), and init_config (Init)
--   Server              src/process/main.c: the callbacks, their runs (Runs, Writes, Spares), the start (Start),
--                       its PID file (PidFile), main() as a whole (Main), and libevent's messages
--   Log                 src/common/log.c
--   Tests               each theorem at a concrete input
--
-- State. The database and the file system are passed on and returned; a handler returns a value of
-- Handled: the file system and the reply, or that the process ends (abort(), an assert, the use of a NULL
-- pointer), that the loop of serve_file hangs, or that the fuel is too small.
--
-- The running server is a relation on states (Server/Runs): its steps are the requests that start and
-- finish, the signals, and the changes of the tokens by other processes, in any order. A call of
-- init_config returns the variables, exits, or does what C leaves undefined.
--
-- Numbers and fuel. Sizes of uint32_t keep their wrap-around. The loops of make_disk_path run on the length
-- of the path, from which each round takes bytes, and get_xattr on `maxlen`, which the buffer passes first.
-- get_etag takes the depth of the directory tree as fuel; a regular file needs one unit. The loop that
-- removes empty parents runs on one more than the length of the path, which dirname shortens.
--
-- What C leaves undefined. A record that does not unpack is used with fields that are not set: the loop over
-- its scopes finds a match, or none, or ends the process, as the memory of the request has it (Garbage). A
-- NUL that get_xattr writes behind a full buffer ends the process unless malloc has left room (Process), and
-- a NULL ETag in a header is what evhtp_header_new makes of it. A write past the buffer of
-- pack_authorization is an outcome of its own.
--
-- Not modelled: allocation failures, the event loop and the sockets, which are libevent's and libevhtp's,
-- the locking of the database between processes, the texts of --help and --version, what the handlers log,
-- the two SSL callbacks, which return 1, and the web server of auth/, which is JavaScript, but for its
-- bindings. src/trie.c is left out: the server does not use it, and it does not compile, since its recursive
-- call lacks an argument. Berkeley DB, libevhtp, libmagic, SHA1, V8, getopt_long and getpwnam_r are parameters.
pub mod Base
pub mod CString
pub mod Request
pub mod DiskPath
pub mod Auth
pub mod Authorize
pub mod Json
pub mod Log
pub mod Config
pub mod Options
pub mod User
pub mod Response
pub mod Webfinger
pub mod Posix
pub mod Attributes
pub mod ContentType
pub mod Etag
pub mod Storage
pub mod Dispatch
pub mod Tools
pub mod Bindings
pub mod Server
mod Tests
