-- ===== src/Lib.antt =====
-- A verification library for ccminer, a miner of Verus coins.
--
-- The program. Miner threads search the nonces of a work unit (verus/verusscan.cpp) and put the
-- shares they find on a queue (util.cpp, struct thread_q), from which one thread submits them to the
-- pool. The pool speaks the stratum protocol (util.cpp, verus/stratum.cpp): its messages set the
-- extranonce, the target and the job that the work units are made from. A log of submitted nonces
-- (hashlog.cpp) keeps shares from being sent twice, and records of speeds (stats.cpp) give the hash
-- rates. Several pools may be configured, and the program switches between them (pools.cpp); a
-- benchmark runs through all algorithms (bench.cpp, algos.h). An API (api.cpp) answers to the
-- clients on an access list.
--
-- The files. Each component is a file with the definitions and a folder of the same name with the
-- theorems and their examples.
--   Scan        verus/verusscan.cpp: FixKey, RestoreKey, PrepareHashInput, FinalizeHash, Verus2hash
--               and the loop of scanhash_verus; Scan.Setup has VerusHashHalf, GenNewCLKey, the
--               clearing for merged mining, record_solution and scanhash_verus itself, with
--               bn_store_hash_target_ratio of bignum.cpp; Scan.Lanes has the loop with two lanes
--               of the build for ARM
--   Target      util.cpp: fulltest; Target.Difficulty has diff_to_target and work_set_target
--   Hex         util.cpp: bin2hex, hex2bin
--   Hashlog     hashlog.cpp, all but hashlog_dump_job
--   Stats       stats.cpp
--   Queue       util.cpp: tq_new, tq_freeze, tq_thaw, tq_push, tq_pop
--   Stratum     miner.h: struct stratum_job, struct stratum_ctx; util.cpp: stratum_free_job,
--               stratum_parse_extranonce, stratum_set_difficulty; Stratum.Verus has
--               verus/stratum.cpp up to verus_stratum_notify, Stratum.Verus.Submit has
--               verus_stratum_submit
--   Wire        util.cpp: send_line, stratum_send_line, stratum_recv_line and the buffer that
--               stratum_connect starts with
--   Session     util.cpp: a connection with its buffer and url, stratum_disconnect and the handlers
--               of the pool's calls; Session.Notify has stratum_notify and getblocheight,
--               Session.Methods has stratum_handle_method, Session.Login has stratum_subscribe,
--               Session.Login.Authorize has stratum_authorize; verus_stratum_show_message of
--               verus/stratum.cpp stands in Session, as the handlers call it
--   Shares      ccminer.cpp: share_result, stratum_handle_response
--   Worker      ccminer.cpp: workio_get_work, workio_submit_work, workio_abort, workio_thread, and
--               the requests get_work and submit_work of the miner threads
--   Upstream    ccminer.cpp: submit_upstream_work; Upstream.Blocks has get_blocktemplate and
--               gbt_work_decode, Upstream.Text the texts that are sent
--   Limits      ccminer.cpp: wanna_mine
--   Generate    ccminer.cpp: stratum_gen_work, calc_network_diff
--   Print       the printf of integers
--   Pools       pools.cpp, all but parse_pool_array and pool_dump_infos; Pools.Change has pool_switch
--               and its callers
--   Algos       algos.h, and get_currentalgo of ccminer.cpp
--   Bench       bench.cpp: bench_algo_switch_next, bench_set_throughput
--   Access      api.cpp: setup_ipaccess, check_connect
--   Transfer    util.cpp: all_data_cb, upload_data_cb, seek_data_cb
--   Work        miner.h: struct work
--   Cstring     functions of the C library on texts
--   Float       the operations on doubles, an argument of the functions that use them
--   Common      shared helpers: lists, maps by rising key, buffers, digits, tables
--   Fixtures    concrete data of the examples
--
-- The parts meet in types they share. Session stands on Wire's buffer and on the connection of
-- Stratum; what it does to the job is what Generate makes a work from, whose nonces Scan searches.
-- Worker has the queues of Queue, hands the work to the threads and calls the server: Upstream is
-- what one submission does, on the log of Hashlog, the connection of Stratum and the globals of
-- Pools. Shares counts the answers per pool, and Limits has the threads wait.
--
-- State and operations. A struct is a record, a C text the list of its bytes, a std::map a list of
-- entries by rising key, an array a function or a list. A function takes the globals that it reads
-- and gives back those that it changes. The mutexes make each call one step; what other threads do
-- during a wait, what fresh memory holds, what an uninitialised byte or an undefined shift gives,
-- and the time are arguments. A read through NULL is `none`. Numbers of fixed width wrap where
-- `% 2 ^ w` is written. Allocation is taken to succeed, but for realloc in all_data_cb.
--
-- Loops and fuel. The loop of the nonce search has the hashes left up to its limit as its fuel,
-- which is the loop's own bound, and that with two lanes the batches left. VerusHashHalf has the
-- length of its input, of which each round takes a byte at least. The loop on the access list has
-- the length of the text and one more, since a round takes a byte or ends it. A socket is the list
-- of what it takes or brings at each call, and a loop on it runs over that list; the end of the list
-- is the end of the time or of the connection. So are the answers of the server, which the worker
-- asks for again, and the handlers' surroundings in the loop of authorize. getblocheight looks for
-- its mark within 128 bytes, as the code does. The other loops run over a list or count.
--
-- Not modelled: the hash functions of verus/haraka.c and verus/verus_clhash.cpp, which are
-- arguments of the search with what it relies on as the hypotheses Scan.Loop.IsHashes and
-- Scan.Lanes.Batches.IsDual; the tail of the loop in the build for ARM; libcurl and JSON parsing,
-- which are arguments where the code calls them; the reference counts of JSON values, but for the
-- value that stratum_subscribe releases twice, which is a crash; the 512 bytes that
-- submit_upstream_work prints a text into, which its parts' sizes are taken to keep; the options,
-- the miner's, longpoll's and stratum's threads of ccminer.cpp; the commands of the API; copies of
-- other libraries (uint256.h, serialize.hpp, bignum.hpp, elist.h); logging.
pub mod Common
pub mod Cstring
pub mod Hex
pub mod Target
pub mod Float
pub mod Wire
pub mod Work
pub mod Worker
pub mod Generate
pub mod Hashlog
pub mod Shares
pub mod Stats
pub mod Algos
pub mod Bench
pub mod Print
pub mod Queue
pub mod Session
pub mod Stratum
pub mod Pools
pub mod Scan
pub mod Access
pub mod Transfer
pub mod Fixtures
pub mod Limits
pub mod Upstream
