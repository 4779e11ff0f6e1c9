-- ===== src/Lib.antt =====
-- The runtime and the seed builder of Atlanage, a programming language with Chinese keywords and a
-- compiler written in itself. The C part of the repository is modelled: the runtime library that
-- compiled programs are linked with (runtime/), and the program that turns the hexadecimal seeds of
-- the compiler into executables (seed/).
--
-- The parts, and the files that model them:
--   Word: the tagged word `XTValue` of runtime/xt_runtime.h (an integer of 63 bits, a constant or a
--     pointer), `xt_to_int`, `xt_add` to `xt_bit_shr`, and the integers in `xt_math_abs`.
--   Compare: `xt_compare`, `xt_eq` and `xt_hash_value` of runtime/xt_runtime.c.
--   Heap: the counts of `xt_retain` and `xt_release`, and the recursive freeing of `xt_free_obj`, on a
--     store of objects. It takes the buckets of Dict and the struct of Channel.
--   Weak: the list of the weak slots, and `xt_weak_clear`, which `xt_free_obj` begins with. The calls
--     that it makes are listed, and what they change is not followed.
--   Arena: the blocks of memory of `xt_arena_new`, `xt_arena_alloc_raw` and `xt_arena_destroy`.
--     Arena/Current has the global of the current arena, and `xt_malloc`.
--   Effect: the calls of `xt_retain`, `xt_release` and `xt_scheduler_wake_task` that the containers
--     make. Each container operation returns them, in order, with its new state.
--   Dict: the hash table `XTDict`, `xt_dict_new` to `xt_dict_remove`. It finds keys by Compare.
--     Dict/Access has `xt_get_member`.
--   Array: the growing array `XTArray`, `xt_array_new` to `xt_array_range`.
--   Bytes: the growing array of bytes `XTBytes`.
--   Text: `XTString` read as UTF-8, `xt_string_get_char` to `xt_string_concat`. Text/Search has `strstr`
--     of the C library, and Text/Replace `xt_string_replace`.
--   Convert: `xt_obj_to_string`, `xt_convert_to_int`, `xt_array_join` and `xt_string_contains`.
--     Convert/Numbers has `atoi` and `atoll` of the C library.
--   Json: JSON. The file has the text branch of `xt_json_serialize` and `json_parse_string`, Json/Value
--     the rest of `xt_json_serialize`, Json/Parser `json_parse_value` and `xt_json_deserialize`. A
--     value is the tree that is seen through the pointers.
--   Channel: the bounded channel `XTChannel`, `xt_channel_new` to `xt_channel_select`.
--   Sha: SHA-256 in seed/seed_builder.c; Sha/Standard has the hash function of FIPS 180-4. Seed: `materialize` and `main` of the same file, which
--     check the decoded bytes by Sha.
--   Pool: the thread pool of runtime/xt_threadpool.c, the ring of its tasks, and one step for each
--     part of `xt_threadpool_submit`, `worker_loop`, `xt_threadpool_wait` and `_try_wait` that runs
--     under the lock. Pool/System is the relation of the steps of all clients and workers.
--   Async: the tasks of `xt_async_spawn`, which run in Pool, and what waits for them.
--   Scheduler: the fibers of runtime/xt_scheduler.h, the ready queue linked through them, and the heap
--     of the timers. Scheduler/Results has the results of the fibers and `_xt_fiber_recycle`,
--     Scheduler/Run a round of the loop of `xt_scheduler_run`. The state of a fiber is left aside.
--   Net: runtime/xt_net.c and what calls it. The file has the objects of the sockets and their
--     methods, Net/Address the parts of URLs and addresses, Net/Http `xt_net_http_get` and
--     `xt_http_request`, and Net/Listen `xt_net_listen`, the threads that accept and serve
--     connections, `xt_listen` and `xt_connect`. The operating system is a record `Os` of its answers.
--   File: `xt_file_read`, `xt_file_write` and `xt_file_exists`, on a record of what the system does.
--   Extremes: `xt_math_max` and `xt_math_min`.
-- Prelude holds the names, lists and integers that all of them share. A component that has a state
-- has a record of the name of the struct, and one function per operation, which takes the state and
-- returns the new one. A null or foreign pointer is a word that fails the guard of the operation.
--
-- Words and machine integers are natural numbers below 2 ^ 64 (2 ^ 32 in Sha), and each wrap is
-- written out, but for the ids of the tasks in Pool: they are an `int`, which overflows after 2 ^ 31
-- submissions, and a number that grows here. `signed` reads an `int64_t`. What stands behind a pointer
-- is a record `Memory` of functions, an argument of what reads it. Among them is `atoll` of the C
-- library, of which only the round trips of Json and Convert ask something: that it reads back what
-- `"%lld"` prints, or the digits of a text. An operation that may read out of bounds returns an option.
--
-- Loops are recursive on a list or on the number of rounds. The walks over a text and the loops of
-- `sha_update` and `sha_final` run on fuel: one more than the bytes of the text, the bytes of the
-- input, and 64. `json_parse_string` runs on one more than the bytes behind the quote. Each round of
-- these takes a byte or adds one to the 63 that padding can need. `json_parse_value` runs on two for
-- each byte and one more, since every call takes a bracket or a comma, or is the first at its place.
-- What a blocking operation waits for is a list of turns, the states that the other threads leave to
-- it; what waits for a task of the pool is one look at it, in any state that can be reached.
-- `xt_release` runs on fuel for its depth: one more than the objects whose count is not 0, since each
-- level of the recursion takes one of them down to 0.
-- The timers of Scheduler move on fuel too: as many rounds as there are timers. The two passes of
-- `xt_string_replace` run on one more than the bytes of the text, since each round takes at least one,
-- and `xt_obj_to_string` on fuel for the depth to which results are nested.
-- A round of the scheduler takes what the other threads do between its two critical sections as an
-- argument. `xt_http_request` lists the calls that use its socket, one for each `recv`.
-- An array takes its allocator as a function that says which sizes are served.
--
-- Not modelled: weak slots of the objects in Heap, the repetition of the rounds of the scheduler, the
-- locks, conditions and threads below the thread pool, the console, processes, clocks and
-- floating-point numbers, but for their order in Extremes. The C library and the operating system do
-- most of the work of the latter. Splitting a text at a separator rests on `strtok_s`. Allocation fails
-- only where it is said.
pub mod Prelude
pub mod Word
pub mod Compare
pub mod Effect
pub mod Heap
pub mod Weak
pub mod Arena
pub mod Dict
pub mod Array
pub mod Bytes
pub mod Text
pub mod Json
pub mod Channel
pub mod Scheduler
pub mod Convert
pub mod Net
pub mod File
pub mod Extremes
pub mod Pool
pub mod Async
pub mod Sha
pub mod Seed
