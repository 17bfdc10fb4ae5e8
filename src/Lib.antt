-- ===== src/Lib.antt =====
-- A verification library for lbzip2, a parallel implementation of bzip2.
--
-- The parts of the program. The compressor (src/compress.c) cuts its input in pieces; for each, the
-- encoder (src/encode.c) collects bytes into a block in a run-length code, sorts the block
-- (src/divbwt.c), codes it and transmits its bits. The decompressor (src/expand.c) reads words of
-- 32 bits; the parser (src/parse.c) reads the headers of streams and blocks from them, the scanner
-- (src/parse.c, src/scantab.h) searches the words for the magic number of a block so that several
-- workers can start at once, and the decoder (src/decode.c) retrieves a block, undoes the sorting and
-- emits the bytes. The scheduler (src/process.c) gives the tasks of either process to threads.
--
-- The files.
--   Shared      numbers, lists, binary digits, tests of a finite range
--   Common      src/common.h: the result codes and limits
--   Bitstream   src/parse.c: the bit reader. View has the bits that a reader is still to deliver,
--               Read how the operations shorten them.
--   Parser      src/parse.c, parser_init() and parse(): `parse_word` is the switch, `round` one round
--               of the loop, `leave` and `at_eof` what follows it. Total has termination, Feed and
--               Headers the words of a header read one by one, Streams several streams, Resume calls
--               that are suspended.
--   Scan        src/parse.c, scan(): `scan_bits` and `scan_words` are the two loops, Tables the
--               tables. Automaton and Search compare the tables with the pattern, Buffer and Correct
--               the loops with the search for it.
--   Crc         src/crctab.c and the CRC step of src/encode.c; Polynomial has the division
--   Rle         the run-length code of the format, as a reference for Collect and Emit
--   Collect     src/encode.c, encoder_init(), collect() and the beginning of encode(): a `Place` is a
--               point in the code where the next byte is looked at, `step` what is done with it.
--               Invariant, Steps and Runs go with the places, Correct with a call, Block with the
--               whole.
--   Mtf         src/encode.c, make_map_e() and do_mtf(): `run` and `mtf` are the macros RUN and MTF.
--               Front has a list as a reference, Invariant goes with a byte, Correct and
--               Frequencies with the whole, Map with the numbers of the bytes in use.
--   Emit        src/decode.c, emit(): a `Case` is a state in which a byte has been fetched, `enter`
--               what is done with it. Steps has the text that each state stands for.
--   RoundTrip   collect() and emit() together
--   Retrieve    src/decode.c, the tables and steps by which retrieve() reads selectors and code lengths
--   Prefix      src/decode.c, make_tree() and the lookup of a prefix code in retrieve(): a function for
--               each loop, put together by `tables`, and `decode_symbol` for a code. Sums has the code
--               space, Base the counts and the bases, Sorting the counting sort, Lookup the table's
--               complete entries, Search the others, Tables all of them, Entries the entry of a
--               code, Correct the code, Kraft the verdict.
--   Imtf        src/decode.c, mtf_one(): `Lists` are the pool and the pointers to its rows. Rows moves
--               elements, Rebuild builds the pool again, Whole has the list, Far and Correct its change.
--   Ibwt        src/decode.c, decode(): `link` makes the list, and `reorder`, `flip` and `reform` are
--               the loops for a randomised block. Original has the inverse of the sorting and the
--               randomisation, without a list, Columns the places of the bytes, Links the loop that
--               links the nodes; Reorder and Rand go with a randomised block, Correct with the whole.
--   Selectors   src/encode.c, the loop of encode() that moves the selectors to the front: `select` is a
--               round of it on the packed list. Step tries each order of the trees, Correct has the
--               loop.
--   Coding      src/encode.c, assign_codes(): Merging has sort_alphabet() and package_merge(), Sorting
--               and Merging/Loop what they do. Leaves and Levels go with the lengths and first codes,
--               Filled with a whole tree, Correct with the decoder's tables. Groups has
--               find_best_tree(), for lengths up to 20, where make_code_lengths() allows up to
--               30, with which the packed costs may overflow; Dummy the second tree of a block.
--   Queue       src/process.h, src/process.c: positions, and the interface of a priority queue. Order
--               has the order of positions, Memory the array behind a queue, Heap the macros with
--               up_heap() and down_heap(): Up and Down restore the order, Correct gives the interface.
--               Deque has the deque's macros, Ring the places of its ring, Correct its list.
--   Compress    src/compress.c: a `begin_` or an `end_` is what a task does before it leaves the
--               lock and after it takes it again. Steps has the steps of all threads, Reference
--               one thread working alone. Safety, Accounts, Coverage, Units and Slots are
--               invariants of the steps; Complete and Lossless are about the end, Moves, Progress,
--               Measure and Ending about the way there. Work has the limits that work() sets.
--               Frame has write_header() and write_trailer().
--   Monitor     src/process.c, select_task(), worker_thread_proc(), sched_lock() and sched_unlock(): a
--               `Holder` has the mutex. Steps has what threads do, Alert the invariant.
--   Process     src/process.c, xread(), xwrite(), set_memory_constraints() and work(): read() and write()
--               are parameters
--
-- How state is modelled. A structure is a record with the source's field names, restricted to what
-- the functions modelled use; local variables that live in registers are a record of their own. A
-- function returns its result with the new state. A pointer into a buffer is the list of what lies
-- behind it; an output pointer is the list of what has been written. Failed assertions and abort()
-- are values, but for the assertions of make_tree(), of encoder_init() and of the start of the
-- compressor, and those on the arguments of parse(), emit() and xread(), which are left out. Integers are natural numbers, and each shift that drops bits says so by % 2 ^ 32.
--
-- Threads. The monitor of the scheduler makes each part of a task between two of its calls one
-- step, and a run is any sequence of steps whose guards hold. The blocks that a thread holds
-- outside of the monitor are in lists, from which any may be the next. The reader's taking of a
-- slot and its delivery of the block are one step; so are, at the end of a block, the enqueueing of
-- its rest and the begin of its encoding. There a task may run whenever its guard holds; how the
-- workers are woken for it is in Monitor, where what a task or a callback does is any change of the
-- shared state. The queues are parameters with the interface of a priority queue; Compress/Tests
-- has the heap for them.
--
-- Bounds and fuel. The loop of parse() runs on fuel, live + 32 * words + 1, and every round takes
-- 16 bits, so that it cannot run out. The loop of scan() over the buffer has one round for each bit
-- in it. The loops of the heap run on its size, since the index falls to the root or rises to the
-- end. The loop of xread() runs on the number of bytes asked for, since each round that goes on
-- reads one at least, that of xwrite() on the number of bytes to be written, and the loop that
-- derandomises a block on the size of the block, since each distance is positive. The inner loop of
-- package_merge() has 2 ^ 21 rounds for a width: what is taken at the depth d takes less than 2 ^ d.
-- The search for the length of a code has 20, since there are 20 lengths. All other loops
-- are structural: on the words, on the input, or on the bytes that are left.
--
-- What is not modelled: the files left out above, which are operating system calls, threads or the
-- copy of divsufsort, and of the files named the functions that are not named; the sizes of buffers
-- in emit() are below 2 ^ 32 - 1.
pub mod Shared
pub mod Common
pub mod Bitstream
pub mod Parser
pub mod Scan
pub mod Crc
pub mod Rle
pub mod Emit
pub mod Collect
pub mod RoundTrip
pub mod Retrieve
pub mod Ibwt
pub mod Process
pub mod Mtf
pub mod Queue
pub mod Compress
pub mod Selectors
pub mod Monitor
pub mod Prefix
pub mod Coding
pub mod Imtf
