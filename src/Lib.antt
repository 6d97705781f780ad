-- ===== src/Lib.antt =====
-- kineticio stores files on a cluster of kinetic drives. A file is a row of data blocks
-- (src/DataBlock.cc), each of which keeps a copy of one value of the cluster and the changes made
-- to it. The cluster (src/KineticCluster.cc) splits a value into the chunks of a stripe, adds
-- parities (src/RedundancyProvider.cc), and reads and writes one chunk per drive in an operation
-- (src/KineticClusterStripeOperation.cc, src/KineticClusterOperation.cc), whose result is
-- evaluated from the drives' answers.
--
-- The files and what they model:
--
-- - Prelude, Str: shared tests and lemmas; the members of std::string over lists of bytes, with
--   size_t sums modulo 2 ^ 64.
-- - Kinetic: the status codes of the client library (src/Utility.cc: toString) and
--   validStatusCode.
-- - ClusterInterface, Remote: include/ClusterInterface.hh as a record of calls over an unknown
--   state of the world, and what that header documents of versioned put and get for one key
--   without other clients, as an instance of the record. Remote stands for no code of the
--   repository but the header.
-- - DataBlock, DataBlock/Changes: src/DataBlock.cc, every method. A null shared pointer is
--   `none`, and following one is the error null_pointer. The mutex makes each method one step.
--   The loop of flush takes fuel; two rounds are enough where no other client interferes. The
--   children prove: Content (what a block holds, write), Reading, Merge (getRemoteValue),
--   Flushing, Faults (inputs on which a block departs from its contents).
-- - Redundancy: src/RedundancyProvider.cc: getErrorPattern, replication, compute. getCodingTable
--   and ec_encode_data rest on the isa-l library and are a parameter, the coding table of a
--   pattern; Redundancy/Recovery states what is assumed of them as IsErasureCode and proves the
--   recovery, over Redundancy/Damage on stripes with missing chunks.
-- - Stripe: valueToStripe of src/KineticCluster.cc; makeRecord and reconstructValue of
--   src/KineticClusterStripeOperation.cc. The checksum is a parameter, any function of the
--   bytes; the size that uuidDecodeSize reads out of the version is an argument. The children
--   prove the round trip.
-- - Quorum: the map of results of executeOperationVector, the order CompareStatusCode, the
--   search for a result that enough drives gave, mostFrequentVersion (Quorum/Majority: of a
--   version that most answers have). The numbers of the client library's enumeration are a
--   parameter.
-- - Operation: executeOperationVector of src/KineticClusterOperation.cc over the callbacks of
--   src/KineticCallbacks.cc, and of src/KineticClusterStripeOperation.cc the writing operations:
--   attemptStripeRepair, resolvePartialWrite, StripeOperation_PUT::execute and
--   StripeOperation_DEL::execute (the last two in Operation/Execute). The drives and the clock
--   are a parameter. The requests run one after the other, and one without an answer at the
--   timeout counts as timed out. The loop of resolvePartialWrite takes fuel, which
--   Operation/Clock bounds by the timeout. Operation/Evaluation is about the report of a write,
--   Operation/Outstanding about the count of outstanding requests that a waiting thread reads,
--   Operation/Unanswered about a repair in which no drive tells its version.
-- - Get: StripeOperation_GET of src/KineticClusterStripeOperation.cc with its three attempts:
--   the data chunks, the parities, the chunks handed to other drives. The drives are a
--   parameter, also for the range request of insertHandoffChunks. Get/Rebuilt and Get/Served are
--   about what execute returns, Get/Recovered about an attempt that enough drives answer,
--   Get/Whole about a value that is written and read.
-- - Range: ClusterRangeOp and ClusterFlushOp of src/KineticClusterOperation.cc, with range and
--   flush of src/KineticCluster.cc; Range/Merged is about the keys that are put together from
--   all drives. The drives are a parameter.
-- - Handoff: createSingleKey, putIndicatorKey and putHandoffKeys of
--   src/KineticClusterStripeOperation.cc; Handoff/Numbered is about the number of the chunk in
--   the key.
-- - Cluster: put, get and remove of src/KineticCluster.cc as do_put, do_get and do_remove
--   compose the operations on drives. The drives, the clock and the uuids are a parameter. The
--   restarts of a get and the rounds of its wait take fuel, and so does the write; Cluster/Read
--   has the gets; Cluster/Reported and Cluster/Answered are about what a put and a get return,
--   and say how much is enough. Cluster/Snapshot has the limits and statistics with
--   ClusterLogOp; times are in milliseconds.
-- - Admin: src/KineticAdminCluster.cc and quick_repair. The threads that apply an operation to
--   the pages of keys are taken one after the other. Admin/Applied is applyOperation, and
--   Admin/Pages doOperation with its callers; it takes fuel, and Admin/Counted says how much is
--   enough. Admin/Repaired is about a repair of drives that told no version.
-- - Cache: src/DataCache.cc over the blocks as a parameter; Cache/Kept states what is assumed of
--   them. What C++ leaves undefined is `none`. Cache/Fetch is getDataKey. Coherent, Kept, Served
--   and Dropped are about the tables and the two lists, History about a cache after any calls.
-- - Background: src/BackgroundOperationHandler.cc as steps at the points where a thread takes
--   the lock or changes a counter; Background/Queued and Background/Unlimited are about its
--   schedules.
-- - Connection: src/KineticAutoConnection.cc, where the client library, the socket listener, the
--   clock and the random numbers are a parameter; Connection/Limited is about the rate of
--   reconnects.
-- - Placement: both expandOperationVector, with the hash of the key as an argument.
-- - ClusterMap: src/ClusterMap.cc, with ClusterMap/Configured on the clusters it hands out.
-- - Keys, Keys/Numbers: the keys and urls of src/Utility.cc as ASCII codes, with the block
--   number in a data key and the size in a version; Keys/Urls and Keys/Numbers/Decimal prove
--   that they are read back. The text of a new uuid is an argument.
-- - Words: int and size_t as bit patterns, with their conversions.
-- - Prefetch: src/PrefetchOracle.cc, all of it. The order in which a hash map is walked is an
--   argument. Prefetch/Predictions is about what a prediction can be.
-- - File: src/FileIo.cc. File/Services names the calls that a file makes of its cluster, the
--   cache, its blocks and the background threads, over a state of everything outside the file;
--   these are a parameter, and File/Store and KeyRange (File/Manage/Emptied) state what the
--   results need of them. File/Blocks puts the read, write and size of src/DataBlock.cc in their
--   place and proves the laws of File/Store of them, for blocks that are all cached and younger
--   than the expiration time, while the background threads have not run. File/Transfer has
--   ReadWrite, Read, Write, scheduleReadahead and verify_eof, File/Names the attributes and
--   ListFiles, File/Manage the other methods. Loops take fuel; the results say how much is
--   enough. Offsets and lengths are not negative. File/Flat views a file as one function of
--   bytes, Transfer/Pieces is about the cut at the borders of blocks, Transfer/Quiet is about
--   calls that leave the bytes as they are, Writing and Written about Write, Ends about the
--   search for the last block, Reading, Holding and Delivered about Read. The statistics of
--   attrGet and Statfs are left out.
-- - Tests: runs, and examples in which the hypotheses of the results hold.
--
-- Not modelled: status of the administration with its benchmarks, the socket listener, the
-- configuration and its parsing, the statistics of attrGet and Statfs, the administration tool.
-- Log messages are left out everywhere. The cluster and the cache are not put in the place of the
-- parameters of File, DataBlock and Admin, nor is the flush of a block in the place of that of
-- File.
mod Prelude
mod Str
pub mod Kinetic
pub mod Background
pub mod ClusterInterface
pub mod Remote
pub mod DataBlock
pub mod Redundancy
pub mod Stripe
pub mod Quorum
pub mod Operation
pub mod Placement
pub mod Keys
pub mod Words
pub mod Prefetch
pub mod File
pub mod Get
pub mod Range
pub mod Connection
pub mod Handoff
pub mod Cluster
pub mod Cache
pub mod Admin
pub mod ClusterMap
mod Tests
