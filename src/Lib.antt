-- ===== src/Lib.antt =====
-- coresight_trace: AFL++ fuzzing with Arm CoreSight traces instead of instrumentation.
--
-- The program. `afl-cs-proxy` (src/cs-proxy.c) stands between afl-fuzz and a fork server inside the
-- target. For each test case it traces one run of a child, has the trace decoded into the shared
-- coverage map, and answers afl-fuzz. The trace unit may overflow, so a governor (src/freq_gov.c)
-- moves the CPU frequency by what the runs report. With AFLCS_COV=hybrid an input runs without
-- branch broadcast first, and only a new path is run again with it (src/hybrid.c).
--
-- The files.
--   Base            shared names, Boolean tests, list lemmas (Base/Lists), bits (Base/Bits) and bytes
--                   (Base/Bytes)
--   FreqGov         src/freq_gov.c, include/freq_gov.h
--     Table         read_available_frequencies: collect is the parse loop, shift, insert_step and
--                   sort_from are the loops of the sort; Table/Sorted and Table/Contents hold proofs
--     Sysfs         the files written, and Cpufreq, the interface for the kernel's policy: a bound
--                   that does not cross the other one is accepted, a speed is only under the
--                   governor userspace, and nothing else moves
--     Governor      the statics as the record Governor, one function per function of the source;
--                   Init is freq_gov_init, Ramp is freq_gov_calibrate over a callback, and what the
--                   proxy's comes to (Shot), Run is any sequence of calls, and Valid, Pinned,
--                   Frames, Kept, Restore, Window, Calibrate and Always hold proofs
--   Hybrid          src/hybrid.c, include/hybrid.h
--     Bitmap        classify, has_new_bits, peek_new_bits, count_non_255_bytes; proofs in Novelty
--     Checksum      hash32 as it is compiled for the boards, and checksum
--     State         the statics as the record Hybrid, hybrid_init, remember_input, discard
--     Passes        purge_check, hybrid_after_path, hybrid_after_confirm, hybrid_after_sample; Stale
--                   has any sequence of passes, and the other children hold proofs
--   Proxy           src/cs-proxy.c as it is built with the Stalker decoder
--     Input         input_key
--     State         the statics and the world as the record Proxy, and the commands over it: what the
--                   pipes and the calls return are supplies, and `sent` is what afl-fuzz is written
--     Child         fork_fresh_child to sample_with_branch_broadcast, one run of a child each
--     TestCase      next_testcase is __afl_next_testcase, attempts is the inner loop of main, and
--                   run_testcase is the body of its outer loop; Keeps, Quiet, Protocol, Waits, Last,
--                   Turns, Attempts and Broadcast hold proofs
--     Main          the outer loop of main, so many rounds of it
--   Forksrv         libforksrv/libforksrv.c
--     Server        __cs_start_forkserver over what its calls return: serve is the body of the outer
--                   loop, relay is the inner one; Exchange, Served and Relayed hold proofs
--     Scrub         scrub_forksrv_env, a text as its bytes; Clean holds the proof
--   Session         src/common.c
--     Machine       start_trace, stop_trace, fini_trace and the callbacks on the thread of the proxy,
--                   decoder_worker and trace_sink_polling on the other; an interleaving is a list of
--                   actions; Fits, Returns, Progress and Hang hold proofs
--   Decode          src/common.c, src/stalker.c
--     Backend       the two decoders as parameters, one for each build
--     Dispatch      init_decoder, reset_decoder, run_decoder, fini_decoder, stalker_setup and stalker_run,
--                   with the flag of trace_did_overflow; Runs and Overflow hold proofs
--     Start         init_trace over what its calls return; Started and Unnoticed hold proofs, on the
--                   states of Session
--   Trace           src/common.c
--     Buffer        etr_pending, etr_direct_read, alloc_trace_buf, fetch_trace and decode_trace; Ring,
--                   Room and Fetch hold proofs
--   Etm             src/config.c, src/stalker.c, src/common.c
--     Csal          the CSAL library as a parameter: the calls made are kept as a list, and what a
--                   call answers may depend on it; TraceUnit is a unit as the calls have left it
--     Commands      functions that return 0 or an error, and the loop over the CPUs
--     Range         set_etmv4_addr_range, the loop over the ranges, stalker_configure_addr_range
--     Configure     init_etm, configure_trace, set_etm_bb_mode; both builds, by stalker_decoder
--     Paths         the two ways to turn the trace on and the two to turn it off
--     Gate          enable_cs_trace, disable_cs_trace and trace_set_bb_mode with their statics; Units,
--                   Effects, Programming, Windows, Cycle, Setup, Armed, Opened, Disabled, Sessions, Trials
--                   and Reads hold proofs
--   Maps            src/utils.c
--     Select        the loop of setup_map_info over the lines of /proc/PID/maps; Library holds proofs
--   Cpu             src/utils.c
--     Choice        find_free_cpu and get_preferred_cpu over what procfs and sysfs hold, for no more
--                   CPUs than MAX_CPUS; Free and Preferred hold proofs
--
-- State and numbers. The statics of a file are one record that each operation takes and returns; an
-- array indexed by mode is a record per mode; a map of bytes is a list; a table of slots is a
-- function. Counters of 64 bits wrap (inc64). The checksum wraps at 32 bits. Loops are recursion on
-- the list or on the number of rounds left, except for three that take fuel: the loop over the attempts,
-- for which five is enough (Proxy/Attempts), the doubling of the trace buffer, for which the
-- number of bytes is (Trace/Fetch), and the loop over a preload list, for which one more than its
-- length is (Forksrv/Clean).
--
-- Not modelled. Printing and diagnostics; environment and sysfs reads, which are arguments; signal
-- hooks and the guard process, which only call freq_gov_restore_system; the double that rescales
-- the purge interval, which is the parameter `rescale`; the options of the proxy and its stats
-- file; the mapping of each file that setup_map_info selects; the decoders; the child of the fork
-- server, which goes on with the program.
pub mod Base
pub mod Cpu
pub mod Decode
pub mod Etm
pub mod Forksrv
pub mod FreqGov
pub mod Hybrid
pub mod Maps
pub mod Proxy
pub mod Session
pub mod Trace
