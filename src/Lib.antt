-- ===== src/Lib.antt =====
-- PLAID, a C++ library for sequences that lie on many SSDs, cut into chunks of CHUNK_SIZE bytes.
-- A `chunk_seq` is a vector of chunk descriptors (file, byte address, used bytes, index). The
-- library's eager primitives stream the chunks of a sequence to parallel workers and write a fresh
-- sequence; the drive of each output chunk is random and its writes complete in any order.
--
-- Parts:
-- - Prelude: lists over the native numbers, Boolean tests, division.
-- - Layout: configs.h, the alignment helpers of utils/file_utils.h, the chunk grid of
--   ChunkSequence/Primitives/delayed.h. `epc` is CHUNK_SIZE / sizeof(T); both are parameters.
-- - Disk: GetFileName of utils/file_utils.cpp, and the drives' contents. A disk maps a file and the
--   byte address of a block to the elements of the block; there is one disk for each element type.
-- - Chunk: chunk, chunk_seq, sort_by_indices, to_vector, consolidate, plaid::size of
--   ChunkSequence/Primitives/chunk_seq.h; `contents` is the logical sequence, `IsWellFormed` the
--   library invariant (in index order, every chunk but the last full, every block allocated).
-- - Placement, Writer, Tabulate: the balls-in-bins assignment of chunks to drives and slots, the
--   unordered writer, and the constructors tabulate, to_chunk_seq, from_file, from_chunks and the sequential versions.
-- - Access: operator[] and push_back; Access/Placed holds what push_back relies on (the chunks of a
--   file fill its first slots, no two share a block). The map of file counts is kept in the order
--   of file names, an argument. Both read or write one O_DIRECT block, and their theorems are for
--   element sizes that divide it; Access/Blocks has what that gives.
-- - DensePack: DensePackStream (its packer, halo and bodies) and, in DensePack/Batch, DensePack. Its
--   dispatcher is DensePack/Dispatch, a function of the order in which chunks land; its workers and
--   the reference counts of their input buffers are DensePack/Buffers, a step relation.
-- - Primitives: ChunkFilter, ChunkFlatMap, ChunkFlatTabulate of
--   ChunkSequence/Primitives/primitives.h.
-- - Transform: ChunkEmitter and ExternalTransform of ChunkSequence/Primitives/chunk_seq.h, and their
--   clients ChunkMap and ChunkScan. The order of the emits is an argument, any permutation.
-- - Reduce: RemoveWorker, ChunkReduce, pass 1, the offsets and the total of ChunkScan.
-- - Pack: pack, pack_if, pack_value of ChunkSequence/Primitives/secondary_primitives.h.
-- - Reindex, Reverse, Histogram, FindIf, Materialize: of the same file, flatten, cut_by_chunk, the
--   shifts by zero chunks, reverse, the histograms, ChunkFindIf, and materialize, scan_find, find.
--   How chunks reach the workers of a primitive is an argument, a list for each worker.
-- - RabinKarp: ChunkSequence/examples/chunk_rabin_karp.h.
-- - Kmp: ChunkSequence/examples/chunk_kmp.h; its -1 based variables are held plus 1.
-- - Delayed: the nodes of ChunkSequence/Primitives/delayed.h (a source, a generator, map, scan, zip),
--   their read plans, and reduce, scan and force. `Denotes` is their abstract view, a length and a
--   function. A source pointer is a number; all sources of a tree hold elements of one type.
-- - BigInt: ChunkSequence/examples/chunk_bigint_add.h over the delayed layer. An operand is the
--   number of its address and its sequence; an integer is a list of limbs, least significant first,
--   read as two's complement into Prelude/Int's integers.
-- - SimpleQueue: the bounded queue of ChunkSequence/Primitives/chunk_seq.h; SimpleQueue/Waits is a
--   step relation with the pushers that sleep on its condition variable. Its limit is fixed there.
-- - Tests: the theorems at concrete inputs.
--
-- What the environment chooses is an argument: a `Run` holds the drive list, the drive that is
-- drawn for each chunk and the order in which the writes land, and `IsRun` says that draws are in
-- range and every write lands. parlay::reduce is an argument with its documented result. A failed
-- CHECK is `none`. Numbers are natural; where the code's size_t sum may wrap the model takes it
-- modulo 2^64, and a theorem says which lengths are small enough. The packing loops run on fuel, the
-- number of elements or of runs that are left, which their theorems show to be enough; so does the
-- fall back of the KMP search, on the number of matched characters.
--
-- Every chunk starts at an O_DIRECT-aligned address, as chunk_seq.h says of the layout.
--
-- A result goes to files that its input does not use: input and output have disks of their own.
-- Not modelled: other locks, io_uring rings, output buffers and their release, failures of system calls;
-- the cuts, filters and windowed drivers of the delayed layer, whose reader and dispatcher hand each
-- chunk the blocks that it planned; the eager variant of the big-integer addition; sorting; of the
-- secondary primitives ChunkPartition, segmented reduction, the sequential cut and
-- sequential_materialize of a delayed tree; the other examples.
pub mod Prelude
pub mod Layout
pub mod Disk
pub mod Chunk
pub mod Placement
pub mod Writer
pub mod Tabulate
pub mod Access
pub mod DensePack
pub mod Primitives
pub mod Pack
pub mod RabinKarp
pub mod Reduce
pub mod SimpleQueue
pub mod Transform
pub mod Tests
pub mod Kmp
pub mod Delayed
pub mod BigInt
pub mod Reindex
pub mod Reverse
pub mod Histogram
pub mod Materialize
pub mod FindIf
