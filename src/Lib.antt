-- ===== src/Lib.antt =====
-- Ryze: an HTTP server and the event loop of a JavaScript runtime, in C.
--
-- The program has these parts, each modelled by a module of the same purpose:
-- * server/http_parser.c reads a request in place: the request line, the header lines, the chunks of
--   a body. Http models it. Http.Chars has the table `token_char_map` and reads of the buffer,
--   Http.Scan the scanning loops, Http.RequestLine `http_parse_request_line`, Http.Header
--   `http_parse_header`, Http.Chunked `str_parse_hex` and `http_parse_chunked`, and Http.Request
--   `http_parse_request` of server/bench.c and server/test.c, which calls the first two. Each part has
--   what is proved of it in modules below it.
-- * xxx/eio/eio.c is the work of a request of the runtime, one function for each system call, with
--   the macros of xxx/eio/eio.h. Eio models it. Eio.Memory has the request, the blocks of `malloc`
--   and `free`, Eio.Ops the functions, Eio.Owns and Eio.Keeps the ownership of blocks, Eio.Work,
--   Eio.Directory and Eio.Realpath the runs of an operation with EIO_REQ_FREE behind it.
-- * xxx/ev/ev.c and EV_REQ_ADD of xxx/ev/ev.h hand requests to threads and results back to the event
--   loop. Ev models it. Ev.Workers says where the threads stand, Ev.Pool has the stretches of code
--   under a lock and the steps in which they interleave, Ev.Invariant and Ev.Reachable the
--   invariant, Ev.Delivery what becomes of the requests.
-- * include/list.h has the lists that the requests hang in, as macros on links. Links models them,
--   Links.Ring and Links.Delete relate them to queues; Ev uses queues.
-- * list.h has the same lists as inline functions. Links.Inline models them, and Links.Inline.Laws
--   relates them to the macros and to queues.
-- * src/ev/ev.c and src/ev/ev.h are a later form of the thread pool. Loop models them for any
--   number of threads, with the steps of Ev: Loop.Invariant and Loop.Reachable have the invariant,
--   Loop.Delivery what becomes of the requests, Loop.Progress that the threads go on and come to
--   rest.
-- * xxx/fs/fs.cc makes requests of calls of `open`, `read` and `close` in a script, and settles their
--   promises. Fs models it, with the work of the request and the EIO_REQ_FREE that xxx/ev put around
--   it; Fs.Blocks has what a served request leaves, Fs.Finish the end of a
--   request, Fs.Open and Fs.Read the runs.
-- * xxx/main-bak.c is an earlier program, in which threads claim tasks by an atomic counter. Tasks
--   models `thread_func` and `process_task`, Tasks.Claims and Tasks.Process have what is proved.
-- * xxx/main22.c is an earlier form of xxx/ev, whose threads end when no request is left. Etp models
--   `etp_work` and `process_work`, Etp.Delivery has what becomes of the requests.
-- * src/http is the later server. Server.RequestLine, Server.Header and Server.Chunked model
--   `http_parse_request_line`, `http_parse_header` and `http_decode_chunked` of
--   src/http/http_parser.c, Server.Socket `http_server_init` and `http_server_listen` of
--   src/http/http_server.c.
-- * src/util/util.c has what the module loader needs of paths, files and addresses. Util.Dirname
--   models `is_http_path`, `is_absolute_path` and `dirname`, Util.Resolve `str_split` and
--   `normalize_path`, Util.File `read_file`, Util.Fetch `http_get`.
-- * src/util/test.c has another form of these functions, with a parser of addresses. Util.Url models
--   `url_parse`, Util.Split `str_split`, Util.Parent `dirname`, Util.Normalize `normalize_path`,
--   Util.Client `http_get`.
--   Util.Strings has the functions of the C library on strings that both files call.
-- * src/esm/esm.cc loads the modules of a program, with the functions of src/util/util.c. Esm models
--   it: Esm.Owned and Esm.Twice have what becomes of the strings in its map, Esm.Url what a module
--   sees of its own address.
-- * xxx/main.cc has the module loader of the earlier runtime. Modules models it, Modules.Upwards and
--   Modules.Import have what becomes of the paths of imports.
-- * ev_thread_pool.cc is a thread pool with a list of tasks for each thread. ThreadPool has the
--   threads and `main` as steps, ThreadPool.Queue the list of tasks as it is linked, ThreadPool.Feed
--   the order in which `main` gives out tasks. ThreadPool.Invariant and ThreadPool.Reachable have the
--   invariant, ThreadPool.Destroy and ThreadPool.Late what becomes of the tasks and the threads.
-- * epoll.cc and epoll2.cc are programs in which threads hand tasks to a loop over an eventfd. Epoll
--   models the first, with Epoll.Order and Epoll.Lost; TaskList the linked list of the second, with
--   TaskList.Laws, and TaskList.Program its two threads, with TaskList.Program.Shown.
-- Base holds what they share: tests on numbers, lists, and `Run`, the outcome of code that may read
-- where C leaves the behaviour undefined (`fault`) or that is given too little fuel (`out_of_fuel`).
-- Tests has runs of the models and the theorems at concrete inputs.
--
-- How code and model correspond:
-- * A buffer is the list of its bytes, and a pointer into it the offset from its begin. Reading and
--   moving outside the list is a fault; `data_len` is a number of its own, so that the list may go on
--   behind it. A `size_t` wraps around at 2 ^ 64 where it is computed below 0, an `int` at 2 ^ 32.
-- * Loops over bytes are recursion on the bytes. `http_parse_header` has a round more than the buffer
--   has bytes, and each round moves its pointer on; `http_parse_chunked` has a round more than
--   `data_len`.
-- * A string of src/util is the list of its bytes without the NUL behind them; a text that
--   `str_split` has cut keeps its NULs as bytes 0. Paths are described by their parts, the strings between the
--   slashes. The loops over parts have a round more than the text has bytes.
-- * The network of `http_get` is a record of answers: whether the resolver knows a host, the socket,
--   and the packets that `recv` gives one after the other. Bytes of a block that were not written are
--   what the block held before, where the code reads them, or are counted, where it returns them.
-- * A system call is a parameter, a function of the call and of a state of the system. For the
--   request operations `malloc` is one too, and gives blocks that are not in use, to `realpath` too
--   where it has no buffer; elsewhere it is taken to succeed.
-- * What V8 answers is a parameter too: the hash of a module that compiles, the imports that it asks
--   for, and whether the program links and runs.
-- * A thread of a pool goes from one stretch under a lock to the next in one step; a signal wakes a
--   thread that the system chooses, if one waits, and a thread may wake by itself. In
--   ev_thread_pool.cc each thread has a mutex of its own, which a thread may keep.
--   `ev_thread_pool_init` starts a thread before its struct is filled in: whether one begins in
--   between is a parameter, and what it does then is undefined.
-- * The callback that `ev_loop_run` of src/ev/ev.c is given is a parameter, a relation between the
--   loop before and behind a stretch of it.
--
-- Not modelled: server/pico (picohttpparser) and include/v8, which are other projects; the C++ code
-- that only binds to V8 (main.cc, shell.cc, test*.cc, src/main.cc, src/console, xxx/timer, xxx/console,
-- `fs_init` of xxx/fs/fs.cc, and `main` and `ReportException` of xxx/main.cc); the programs server/main.c and src/http/main.c, which are the same file and
-- do not compile; the measuring in server/bench.c; of xxx/main-bak.c and xxx/main22.c the wait of
-- `main` in its epoll loop, of src/ev/ev.c `ev_loop_destroy`, of src/util/test.c `url_free`, and of
-- src/http the unfinished `http_request_parse`. `read_file` of the programs with tasks is that of
-- src/util/util.c, and a task is opaque there. What the programs print is left out everywhere.
pub mod Base
pub mod Http
pub mod Eio
pub mod Ev
pub mod Loop
pub mod Etp
pub mod Tasks
pub mod Links
pub mod Server
pub mod ThreadPool
pub mod TaskList
pub mod Epoll
pub mod Util
pub mod Esm
pub mod Modules
pub mod Fs
pub mod Tests
