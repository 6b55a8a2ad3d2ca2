-- ===== src/Lib.antt =====
-- Verification library of the C workloads of the vectorizer experiments.
--
-- The emulator runs C workloads on a RISC-V vector machine without an operating system. A workload is a
-- kernel, a runtime that stands for the C library, and a harness that calls `main` or the kernel, then
-- `workload_verify`, and reports.
--
--   Base         numbers, arrays as functions of the index, counting, and the Option monad of faults
--   Dlmul        emulator/run/src/dlmul-synthesis, kernels on the vector extension in several LMULs
--     Rvv        the intrinsics and floats, as parameters with laws, and the arrays of the benches
--     Strip      the strip-mined loops of the kernels, and sweeps over rows of the arrays
--     Micro      microbench: mb2, mb3, mb6, mb7 and mb10
--     Phases     microbench: mb9
--     Live       microbench: mb8, in its classes 1 and 2
--     Switch     microbench: mb1 and mb4
--     Bench      bench: db5 and db10, with their fixed and dynamic variants, and what the others share:
--                the chunks of a register group, and stores by halves
--     Inputs     the vectors that db2, db7 and db8 load
--     Pressure   bench: db2, db7 and db8
--     Gamma      bench: db9 and db11
--     Spring     bench: db12
--     Matrix     bench: dep_matrix, in its four dependency modes
--     Alias      bench: alias_transfer, in its two modes
--     Ints       the intrinsics on integers of 16 and 32 bits, as parameters with laws
--     Widen      bench: db1, db3, db4 and db6, which widen integers
--     Cliff      microbench: mb5, and mb8 in its class 3, on integers
--     Suite      the kernels in common statements, and the agreement of the variants
--   Harness      emulator/run/common/main_harness*.c, the programs around a workload
--     Decimal    the printers of cycle counts: `print_dec`, `write_dec`, `uart_print_u64`
--     Verdict    the main programs, and the log that they print
--   Npb          emulator/run/src/npb/npb_is_s/is.c, the integer sort of the NAS benchmarks
--     Config     the classes with their sizes (CLASS, TOTAL_KEYS, MAX_KEY, NUM_BUCKETS, INT_TYPE)
--     Random     `randlc`, `find_my_seed`, `create_seq`
--     Buckets    the parallel region of `rank`: bucket sizes, pointers, the sort into buckets, ranking
--     Rank       `rank` with its partial verification, and `full_verify`
--     Verify     the two loops of `full_verify`
--     Main       the test data, `alloc_key_buff`, `main`, and `workload_verify` of npb_verify_is.c
--     Population counts of keys, in which the theorems speak of arrays
--   Runtime.Heap the bump allocators of emulator/run/src/npb/npb_is_s/npb_runtime_is.c,
--                emulator/run/src/parsec/common/parsec_runtime.c, emulator/run/common/tsvc_runtime.c
--   Runtime.Text the string functions of parsec_runtime.c: `strlen`, `strcmp`, `atoi`, `memcpy`, `strcpy`
--   Tsvc         emulator/run/src/tsvc, the loops of TSVC, one kernel in a file
--     Memory     the floats, as a parameter, and the arrays a to e of emulator/run/common/arrays.h
--     Pointwise  23 kernels whose iterations work on one index each, in Straight and Branches
--     Dependence s112, s121, s131, s151, s173, s174, s421, s1421, s212, s1113, s1221, s124, s254, s291
--     Sweep      11 kernels that walk up the arrays and look at the neighbouring rows
--     Packing    s341 and s342
--     Search     s331, s332, s314 and s316
--     Bounds     s351 and s424
--
-- The sort is modelled as it is built: USE_BUCKETS defined, OpenMP absent, so one thread with number
-- 0, for each class from S to E. An operation is a function into Option, and `none` stands for a
-- fault: an index outside its array, a result outside INT_TYPE, a double that is not exact, a NULL
-- block. A theorem that says a function returns thus excludes these. An array is a function on the
-- indices; each access tests its bound. `key_buff_ptr_global` is NULL or `key_buff1`, hence a flag. A
-- whole double of the generator is that number, and a random number in (0, 1) its multiple by 2^46; a
-- sum that a double does not hold exactly, above 2^53, a product of more than 53 bits in front of its
-- zeros, and a conversion that does not fit its type are faults. `passed_verification` and the counter
-- of iterations are `int`s in every class, `nq` and `nn` of `find_my_seed` are `long`s. The loop of
-- `find_my_seed` runs on fuel, which its argument bounds. The array `bucket_size` has one row, the one
-- of thread 0, with room for as many elements as the block that `alloc_key_buff` got for it. The ranks
-- that the partial verification expects are stated by the table of Npb/Rank/Shifts.antt.
--
-- The allocators keep the wrap-around of 64 bits. Where their arena lies is a parameter, and `memset` in
-- `calloc` faults outside it. The string
-- functions run on fuel, and the theorems ask for more of it than the string has bytes.
--
-- A row of the arrays is what they hold at one index, and a kernel is compared with a function on rows,
-- which does not know of vectors. The strip-mined loops run on fuel of one more than the elements: every
-- round takes at least one. The variants of a kernel that differ in the LMUL alone are one definition. The
-- macros for the number of elements and of iterations are arguments of the microbenchmarks. A matrix
-- lies row by row. LEN_1D and LEN_2D are parameters. What a lane at or behind the vector length
-- holds is left open. An int16_t or int32_t is its bit pattern; widening extends the sign by `extend`,
-- and sums and products are taken modulo 2^32. A bench sweeps by a row function that may also read
-- arrays that no bench writes. Where a macro computes three vectors in one chunk, the model computes
-- each with the chunks of its own: they do not depend on each other.
--
-- A printer is a function from the number to the characters it sends, with its buffer and the tests of its
-- bounds. A main program takes what the cycle counter shows and what the workload returns, and gives the
-- text it prints and the value that ends the simulation. Its loops run on fuel above the number that they
-- divide by ten.
--
-- A kernel of TSVC is the loop of its file with every access tested. The floats are
-- operations without laws, so rounding is covered; the two reductions name the laws of the order that
-- they use. Sums are taken in the order of the source.
--
-- Not modelled: printing, timers, `free` (empty), the branches for other threads and without buckets;
-- the initialisation of the arrays of the benches, the transport of characters in the harnesses, the
-- harnesses without a verdict, mb11, the other kernels of TSVC, the PARSEC
-- workloads, the copies of other projects, and the Python tools.
pub mod Base
pub mod Dlmul
pub mod Harness
pub mod Npb
pub mod Runtime
pub mod Tsvc
