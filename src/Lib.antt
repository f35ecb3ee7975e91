-- ===== src/Lib.antt =====
-- The value separation layer of DiffKV (src/ of the repository, a fork of Titan over rocksdb): blob
-- files hold large values, an index in the LSM tree says where, a manifest records which blob files
-- there are, and garbage collection replaces files.
--
-- The parts, from the bytes up:
--   Coding       rocksdb's varints, fixed integers, checksums and block handles, as parameters;
--                Coding/Leb128 is one instance, for the examples.
--   Compression  src/util.cc: Compress and Uncompress over the compression libraries, a parameter.
--   Options      the options that the code reads; doubles and comparators are parameters.
--   Format       src/blob_format.h and .cc: records, handles, indexes, metas with their state
--                machine FileStateTransit, headers, footers.
--   Edit         src/version_edit.h and .cc: one record of the manifest.
--   Storage      src/blob_storage.h and .cc: the blob files of one column family, with the counters
--                of src/titan_stats.h that it keeps. Each method holds its mutex, so a call is a step.
--   Collector    src/edit_collector.h: a batch of edits, checked by Seal and carried out by Apply.
--   FileSet      src/blob_file_set.h and .cc: the storages of all column families and the manifest.
--                LogAndApply goes AddEdit, Seal, the manifest, Apply. FileSet/Recover is Open and
--                Recover, FileSet/Snapshot the batches that WriteSnapshot comes to. What the file
--                system answers is an input of the calls.
--   FileManager  the class of that name in src/db_impl.cc: new files, and their way into the file set.
--   Gc           src/blob_gc_picker.cc and src/blob_gc.cc: which files a collection takes, and the
--                states that they get. Gc/Job and Gc/Finish are src/blob_gc_job.cc: the loop over the
--                records of the input files, and what is done with its output. Gc/Schedule is the queue of
--                src/db_impl_gc.cc, with the requests to drop column families of src/db_impl.cc.
--   BlobFile     src/blob_file_builder.cc, src/blob_file_reader.cc and src/blob_file_iterator.cc:
--                writing, reading and scanning a blob file, as bytes, and the merge of such scans.
--   TableBuilder TitanTableBuilder of src/table_builder.cc: which values of a table go to blob files;
--                TableBuilder/Foreground is its ForegroundBuilder, one thread, request by request.
--   SizeCollector  src/blob_file_size_collector.cc: the bytes of each blob file that a table names.
--   Examples     the theorems at concrete values.
--
-- A call gives an Outcome: `ok` a value, `err` a status that is not OK, `fault` a failed assert or a
-- step that C++ leaves undefined. A theorem that a call is `ok` thus says that no assert fails.
-- uint64_t counters wrap around at 2^64. std::unordered_map is a list of pairs in insertion order;
-- the code does not depend on the order. The loop of VersionEdit::DecodeFrom runs on fuel, as many
-- rounds as the input has bytes, since each round takes one at least; more would change nothing. So
-- do the loop that doubles the readahead, which has more rounds than the greatest readahead has bytes,
-- and the one of IterateForPrev, which has more than the offset that it looks for.
--
-- Not modelled: file input and output, the file cache, threads, statistics for display, the LSM tree
-- of rocksdb, tools and benchmarks.
pub mod Prelude
pub mod Coding
pub mod Compression
pub mod Options
pub mod Format
pub mod Edit
pub mod Storage
pub mod Collector
pub mod FileSet
pub mod FileManager
pub mod Gc
pub mod BlobFile
pub mod TableBuilder
pub mod SizeCollector
pub mod Examples
