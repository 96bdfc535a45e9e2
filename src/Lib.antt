-- ===== src/Lib.antt =====
-- Compiled-Lua (CLua) compiles Lua 5.4 ahead of time to Windows x64 executables. Its driver parses
-- and resolves the program's modules, lifts bytecode to an IR (clua/src/ir), optimizes the module
-- (clua/src/opt/passes.c), lowers each opcode through an instruction encoder into a code buffer
-- (clua/src/codegen) and links the result with the members of archives (clua/src/link). The
-- bytecode compiler (clua/src/compiler) packs modules in a blob that clua/src/runtime reads. An FFI
-- (clua/src/ffi) scans declarations and keeps a table of C types.
--
-- Which file models what:
-- - Common: the library's names passed on, Boolean tests, lists, words as little-endian bytes,
--   integers and C strings over the native numbers.
-- - CodeBuf: clua/src/codegen/lc_codebuf.c. The buffer with its used bytes, capacity and
--   relocations; Growth has the doubling loop, Append one call, Laws how emitters compose from
--   them. `realloc` is a parameter that grants or refuses each size; a refusal is an outcome. The
--   doubling loop has fuel 65, more than the doublings of a 64-bit capacity.
-- - X64: clua/src/codegen/x64_emit.c. Int has the integer emitters, Jump the branches with their
--   patching, Sse the floating-point emitters, Sym the calls and loads of symbols; each function
--   X64Emit_* is a definition with the same words. Decode is an independent decoder of what the
--   integer emitters write; Fields, Memory, Operand, Register, Load and Patch have the proofs.
-- - Opt: clua/src/opt/passes.c over the IR of clua/src/ir/ir.h. Libs has the scans of constants
--   and instructions, CallGraph lc_build_callgraph, Sweep and DeadGlobal lc_pass_dead_global.
--   TypeInfer has the lattice and ti_transfer; its Flow the fixpoint of ti_run, Annotate what
--   ti_run leaves on the instructions, Reach what it marks as reached. FoldBranches has
--   lc_pass_fold_dead_branches, with one round for each instruction of a block and one more.
--   Instructions are given decoded. `calloc`, `realloc` and `malloc` are parameters but in
--   ti_run, whose code takes them as granted. A worklist's fuel is the number of its functions or
--   instructions, enough since each is pushed once; the fixpoint's is two rounds for each register
--   of each instruction and one more.
-- - Ctype: clua/src/ffi/ctype.c. Names has the open-addressed tables, Types the registrations and
--   lookups, Layout the fields of structures and unions, Primitives the types that are there from
--   the start. A pointer to a type is its index in the list of types; `calloc` is a parameter.
--   The probe loop's fuel is the capacity of the table, as in the source.
-- - Lexer: clua/src/ffi/cdecl_lexer.c. Next has the tokens and Lexer_Next; the rounds over blanks
--   and comments are one more than the characters left. Sources calls it up to the end.
-- - Suggest: clua/src/compiler/diag_suggest.c, the edit distance and the choice of a suggestion;
--   Distance has the recursion that its table stands for, Best the choice.
-- - Blob: Blob_Build of clua/src/compiler/blob.c, and BlobReader_* of
--   clua/src/runtime/blob_reader.c over the layout of clua/src/common/blob_format.h. The blob is
--   the list of its bytes; a read past it is an outcome.
-- - Cipher: clua/src/common/stream_cipher.h. Keystream describes the stream byte by byte.
-- - FrameAbi: the macros LC_RTF_* of clua/src/common/rt_frame_abi.h.
-- - Response: clua/src/driver/argexpand.c. The text of a response file is a list of characters;
--   the rounds of the tokenizer are one more than its length. Quoting an argument is defined in
--   RoundTrip, for what the tokenizer must read back.
-- - Archive: clua/src/link/ar_read.c and clua/src/link/ar_write.c. Data has the structures, the
--   hashes and the capacity; Probe the loop over the slots that the two indexes share, with a step
--   for each slot; Lookup the builders and LcAr_MemberByHdrOff and LcAr_MemberDefining; Scan the
--   linear scans they stand for; Header and Open have LcAr_Open, with a round of each pass for
--   every byte and the size of the file in a `long` of 32 bits, as on Windows; Write has
--   LcArWrite_SingleMemberObject from the parsed object on. Walk, Space, Slots, Capacity and Index
--   prove the indexes, Answers, Queries and Sessions the lookups, Places and Opening the reader,
--   Decimal, Layout, ReadBack, Passes and Reopen the way from the writer to the reader, which
--   RoundTrip joins. The allocations are a parameter.
--
-- How they interact: the emitters of X64 only change the buffer through CodeBuf's append and
-- through the patches; DeadGlobal runs the scans of Libs, builds the graph of CallGraph and sweeps
-- it, and what ti_run marks as reached is found by the same sweep over the successors; the tables
-- of Ctype share one probe loop; a library that Archive writes is opened by its own reader and
-- answers queries through its indexes; what Blob writes its reader finds.
--
-- Not modelled: the lowering of opcodes in clua/src/codegen/codegen.c, the builder and lifter of
-- the IR, the other passes of the optimizer, the PE and COFF formats, the rest of the driver, the
-- parser of declarations, the FFI's marshalling and loading, and the run-time compiler and support,
-- which work on the state of the vendored Lua VM (lua-5.4, another project's library). The heap is
-- not modelled beyond the allocations that are granted or refused, nor are debug prints.
pub mod Common
pub mod CodeBuf
pub mod X64
pub mod Opt
pub mod Ctype
pub mod Suggest
pub mod Blob
pub mod Cipher
pub mod FrameAbi
pub mod Archive
pub mod Response
pub mod Lexer
