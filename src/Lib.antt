-- ===== src/Lib.antt =====
-- A verification library for ccommon, the C library of shared code of Twitter's caches.
--
-- The parts of the program, and how they interact. The caches log through loggers, which put messages
-- into a ring of bytes and flush it to a file later. They keep data in contiguous buffers, borrowed
-- from a pool, which grow by doubling. A ring array hands elements from a producer to a consumer.
-- Numbers are printed as text and parsed back without the C library's formatting. Arrays grow, histograms
-- count values in logarithmic buckets, and every module counts what it does in metrics. Options are set
-- from lines of text, integers from expressions. A timing wheel calls back what is due, by a clock.
--
--   Prelude      names shared by all: lists and Boolean tests over native numbers, machine words, blocks
--                of memory with copies that may leave them (none), integers.
--   Window       the cells that a ring holds between its two positions.
--   Status       the return codes of include/cc_define.h.
--   Metric       include/cc_metric.h and src/stats/cc_metric.c.
--   RingArray    src/cc_ring_array.c; RingArray/Queue is the bounded queue that it implements.
--   Rbuf         src/cc_rbuf.c: rbuf_read, rbuf_write, the capacities, creation and destruction.
--   Log          src/cc_log.c over the rings of Rbuf; Log/System is the record of system calls.
--   Print        src/cc_print.c; Print/Decimal is decimal text, independently of the printer.
--   Bstring      src/cc_bstring.c: bstring_atou64, bstring_atoi64, comparison and copies.
--   Buf          src/buffer/cc_buf.c and include/buffer/cc_buf.h.
--   Dbuf         src/buffer/cc_dbuf.c over the buffers of Buf.
--   Pool         include/cc_pool.h, and in Pool/Buffers the pool of src/buffer/cc_buf.c.
--   Array        src/cc_array.c.
--   Histogram    src/stats/cc_histogram.c; Histogram/Report has the reports and percentile profiles.
--   Options      src/cc_option.c: Options/Rpn the integer expressions, with the arrays of the code
--                (Options/Rpn/Unbounded is the same without them, and Options/Rpn/Arrays compares the
--                two for texts of up to 341 bytes), Options/Line a line of a file,
--                Options/Store the setting of one option, Options/Load of all, Options/Show printing.
--   Timer        src/time/cc_timer_linux.c: timeouts, and in Timer/Duration durations.
--   Wheel        src/time/cc_wheel.c over the timeouts of Timer and the pools of Pool: Wheel/Events the
--                events, Wheel/Setup their pool, Wheel/Turn the ticks, executions and flushes.
--
-- State is passed explicitly: an operation returns what the function returns and the record after it.
-- A definition has the name of the C function, or a name of a part of it that its comment explains.
-- Positions and counts are native numbers, with the reduction modulo 2^32 or 2^64 written out
-- wherever the C type wraps round. A block of memory is the list of its bytes; pointers into it are
-- offsets. The result none is an undefined access or, in the loops that have fuel, the end of the fuel.
--
-- Fuel: the loop of dbuf_fit and dbuf_shrink doubles a 32-bit size, so 33 rounds are enough for every
-- target that it can reach, as its theorem says. The preallocation of a pool adds one object in every
-- round, and is given as many rounds as objects. A flush of a wheel has as many rounds as the wheel has
-- slots. An execution of a wheel with a bound on its ticks needs one more round than the bound; without a
-- bound it goes on as long as the clock runs ahead of it. All other loops are structural.
--
-- Parameters: the allocator and realloc, system calls, the clock, memcmp, strtod and the numbers that
-- snprintf prints, the caller's functions, and floating point. The hypotheses on them say what their
-- documentation says.
--
-- Not modelled: setup and teardown functions that only set static variables; formatting by the C
-- library; what log_stderr prints, but for log_flush; debugging, signals and events; hashing, which
-- is copied from elsewhere; the bindings for Rust; callbacks that insert into the wheel that calls
-- them. Buffered sockets, the channels and the queue macros have no model yet.
-- Freeing memory has no effect in the models, other than that a pointer to a freed array is told apart.
pub mod Prelude
pub mod Window
pub mod Status
pub mod Metric
pub mod RingArray
pub mod Rbuf
pub mod Log
pub mod Print
pub mod Bstring
pub mod Buf
pub mod Dbuf
pub mod Pool
pub mod Array
pub mod Histogram
pub mod Options
pub mod Timer
pub mod Wheel
