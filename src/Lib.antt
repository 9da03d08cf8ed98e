-- ===== src/Lib.antt =====
-- akavefs, a file system over object storage: a verification library of its core logic.
--
-- The program keeps each open file's data in a buffer list, an ordered map from end offsets to
-- buffers, each clean, dirty, flushed or loading. Reads ask the list for holes, turn them into
-- read requests, and then for data; writes insert dirty buffers and count, for each part of the
-- multipart upload, the dirty buffers in it, so that the flusher finds the parts to upload. The
-- part table gives the parts their sizes. The flusher asks each inode in turn what it can start, and
-- guards the parts in flight by range locks. A directory keeps its children in the order of their
-- names, and handles find their place in it again when it changes.
--
-- Files and the code they model:
-- - PartSizes.antt: `partNum`, `numParts`, `partRange`, `maxParts`, `getMaxFileSize` of core/file.go
--   and `PartSizeConfig` of core/cfg/config.go. The part functions take the configured sizes.
-- - PartNumbering.antt: what a buffer list relies on in `PartNum`, the interface between the two.
-- - Ranges.antt: `Range`, `mergeRA` and `splitRA` of core/buffer_list.go.
-- - BTree.antt: the ordered map of github.com/tidwall/btree as a record of operations with their
--   laws, a parameter of the buffer list; BTree/Assoc.antt shows that sorted association lists
--   meet the laws.
-- - BufferList.antt: the data types of core/buffer_list.go and core/buffer_queue.go. Below it:
--   Track (`unqueue`, `queue`, `requeueSplit`, `referenceDirtyPart`, `IterateDirtyParts`), Edit
--   (`Append`, `split`, `delete`, `insertOrAppend`), Walk (`ascendChange`), Ops (`SetState`,
--   `SetFlushedClean`, `RemoveRange`, `fill`, `Add`, `ZeroRange`, `SplitAt`), Load (`AddLoading`,
--   `AddLoadingFromDisk`, `RemoveLoading`), Evict (`EvictFromMemory`, `ReviveFromDisk`) and Read
--   (`Get`, `Select`, `GetHoles`, `GetData`, `AnyFlushed`, `AnyUnclean`).
--   Proofs: Shape and Holes; Contents, Chunks, Outcomes and Reading for `GetData`; Counting,
--   Spans, Branches, Parts and Balanced for the dirty parts; Requeued, Places and Sound for the
--   order of the buffers with the counts, and `delete`; Halves, Queueing, Splitting and Dividing
--   for `split`, `SplitAt`; Cells, Cuts, Cutting, Visits, Removing and Removal for `RemoveRange`;
--   Inserting, Zeroing and ZeroRange for `ZeroRange`.
-- - RangeLocks.antt: `LockRange`, `UnlockRange`, `IsRangeLocked` of core/file.go; Held and Overlap.
-- - ReadAhead.antt: `FileHandle`, `trackRead` and `getReadAhead` of core/file.go; Tracked.
-- - Inflight.antt: the listings and changes in flight of core/goofys.go; Exclusion.
-- - MultiReader.antt: `MultiReader` of core/buffer_reader.go; Rest, Rounds, Reading, Landing and Seeking.
-- - Queues.antt: `InodeQueue` and `NextClean` of core/buffer_queue.go, with the parts of the loops of
--   core/goofys.go that call them; Order.
-- - Names.antt, Search.antt: Go's strings with their order, and its `sort.Search`; Names/Order and
--   Search/Smallest.
-- - Directory.antt: the children of a directory and the handles that list them, of core/dir.go:
--   `findChildUnlocked`, `insertChildUnlocked`, `removeChildUnlocked`, `checkDirPosition`, `Seek`,
--   `Next`. Proofs: Rank and Children for the map from names to children, Finding, Mutators, Position.
-- - Errors.antt, Backoff.antt: `mapHttpError`, `mapAwsError`, `ReadBackoff` of core/goofys.go and
--   `shouldRetry` of core/backend_s3.go; Errors/Mapping and Backoff/Attempts.
-- - MultipartCopy.antt: `partsRequired`, `mpuCopyParts`, `defaultCopyPartSizes` of
--   core/backend_s3.go; Rounds, Copied and Slots.
-- - Loading.antt: `loadFromServer`, `loadFromDisk` and `LoadRange` of core/file.go, with the buffer
--   list and the ranges; Clipped, Requested and Missing, and Ranges/Merged for `mergeRA`.
-- - Flushing.antt: the decisions of `TryFlush` and `sendUpload` of core/file.go, and the requests in
--   flight for an inode; Exclusive.
-- - FlushParts.antt: `sendUploadParts` of core/file.go and the locks of `goFlushPart`; Chosen, Started
--   and RangeLocks/Locked.
-- - ListingCut.antt: `intelligentListCut`, `maxName`, `prefixLarger` and `locateLtSlash` of
--   core/dir.go; Strings and Slashes (the order of names and directories), Sorted and Loop (the loop),
--   Fuel (the number of names is enough), Kept.
-- - Ownership.antt: the owner of an inode in core/cluster_fs.go, core/cluster_fs_grpc.go and
--   core/cluster_inode.go; System (the nodes, their requests and answers), Known, Moves, Served, Giving
--   and Exclusive (one owner), Carried and Transfer (what goes with it).
-- - CopyParts.antt: the ranges that `copyUnmodifiedParts` of core/file.go collects; Rounds, Parts and Once.
-- - Expiry.antt: references, `inodesByTime`, `EvictEntry` and the scan of `MetaEvictor` of
--   core/handles.go and core/goofys.go; Indexed, Evicted and Scan.
-- - Retrying.antt: `sendRead` and the attempts of `retryRead` of core/file.go; Resumed.
-- - Tests.antt: a test of the repository run on the model, and instances of the theorems.
--
-- How code corresponds to the model. State is passed explicitly. A value of `uint64`, `int64` or
-- `int` is its bit pattern, a number below 2 ^ 64, and `add64`, `sub64`, `mul64` wrap around. A panic
-- is `none`. A `BufferPointer`, which several buffers share, is the index of a cell of `ptrs`; a
-- `FileBuffer` stands at one key of the map, so a change through its pointer is a write under that
-- key. `GetData` drops the dirty IDs where it returns an error, where no caller reads them. Part
-- numbers are taken to be below 2 ^ 64 - 1, so that the loops over parts end.
--
-- Fuel: `walk` restarts once for each key that was there at the start; `fill_from` has the size of
-- the range, since each round fills a byte; `pieces` and `append_zero_from` have the size of the
-- range. `read_from` has one round more than there are buffers, since a round that does not finish a
-- buffer is the last one. `search_from` has the length of the range that it halves.
-- The loop of `intelligentListCut` has the number of names of the page, since each round leaves one
-- out, and that of `sendRead` the size of the range. `ReadBackoff` and `retryRead` have the limit of
-- attempts; a loop without a limit may run out of any fuel.
--
-- Not modelled: mutexes (each operation is one step), logging, `Dump` and `DebugCheckHoles`; the
-- uploads in goroutines and the handling of their results, the loop of the flusher, the
-- requests of a listing and the sealing of directories, the attributes of inodes, the
-- requests of the backends, the connections of the cluster mode, and the handlers of FUSE and WinFsp.
pub mod Prelude
pub mod Names
pub mod Search
pub mod Directory
pub mod MultiReader
pub mod Queues
pub mod Inflight
pub mod ReadAhead
pub mod RangeLocks
pub mod PartSizes
pub mod PartNumbering
pub mod Ranges
pub mod BTree
pub mod BufferList
pub mod Tests
pub mod Errors
pub mod Backoff
pub mod MultipartCopy
pub mod Loading
pub mod Flushing
pub mod FlushParts
pub mod ListingCut
pub mod Ownership
pub mod CopyParts
pub mod Expiry
pub mod Retrying
