-- ===== src/Lib.antt =====
-- webTOS: a Linux userland in the browser. The crate crates/linux-compat holds the kernel's side:
-- the filesystem, the descriptors, content-addressed images, and the digests that name them. The
-- guest's processor (crates/x64-engine, over the vendored emulator) and the bindings drive it.
--
-- Parts, and the files that model them:
-- - crates/linux-compat/src/digest.rs: Digest (Sha256::new, update, finish, compress, sha256) and
--   Digest/Hex (hex, from_hex). A hasher is a record, an operation gives the new one.
-- - crates/linux-compat/src/chunk.rs: Chunk (ChunkedFile::new, chunk_at; ChunkStore::insert as
--   store_insert, first_missing, bytes as store_bytes, read_range). The store is a sorted
--   association list from digests to chunks; it is checked with the hasher of Digest.
-- - crates/linux-compat/src/abi.rs: Abi (the error numbers).
-- - crates/linux-compat/src/fd.rs: Fd/Table (FdTable) and Fd/Pty (the input side of Pty). An open
--   file description is a number, since the table only hands it on.
-- - crates/linux-compat/src/vfs.rs: Vfs (the node arena and its queries), Vfs/Path (components,
--   resolve, resolve_depth), Vfs/Edit (create, link, unlink, rename), Vfs/Storage (bytes, reserve,
--   release_unreferenced, read_node_range, first_missing_file_chunk), Vfs/Snapshot (serialize,
--   deserialize), Vfs/Host (Vfs::new, mkdir_p, add_node) and Vfs/Files (read_file as read_file_at,
--   take_file_contents, put_file_contents, abs_path_of). A BTreeMap is an association list sorted by
--   its keys (Prelude/ByteMap), an index past the arena is a panic, and the edits run in a state
--   monad in which what was written before an error stays written (Prelude/Exec).
-- - crates/linux-compat/src/proc.rs: Sched (Scheduler, find_ready, wait_is_satisfied, futex_wake,
--   take_zombie, take_stop_report, earliest_deadline, Watch::ready). What an Rc points to is looked
--   up by number in a record that stands for the shared objects at one time; the broker's answer on
--   a socket is a field of it. Sched/Hangup has Description and its Drop of
--   crates/linux-compat/src/fd.rs.
-- - crates/linux-compat/src/pager.rs: Pager (Pager::map as map_file, nonresident_pages, page_state,
--   mark_resident, complete, unmap, protect, remap, fork_space, drop_space), Pager/Mapping
--   (FileMapping::new, clipped), Pager/Space (the loops over mappings), Pager/Resolve (resolve;
--   Pager/Resolve/Target: the choice of the page). BTreeMap and HashMap with number keys are
--   association lists (Prelude/NatMap). Pager/View and Pager/Refine give the abstract view, what
--   each address shows; the permission bits of the engine are a parameter.
-- - crates/linux-compat/src/manifest.rs: Manifest (Manifest::parse, to_text, insert as put_entry,
--   covers as names, check) and Manifest/Decimal (the decimal text of a size).
--   String::from_utf8_lossy is a parameter of to_text.
-- - crates/linux-compat/src/liftcache.rs: LiftCache (LiftCacheHeader::serialize, parse,
--   validate_spec, covers_image). It shares the byte cursor of Prelude/Reader with the snapshots of
--   vfs.rs.
--
-- Bounds and fuel. A usize has 32 bits, as in the browser build, and Vec::with_capacity panics above
-- isize::MAX bytes where read_range calls it; u32 and u64 keep their widths, and their wrap-around
-- is written out. A vector carries its capacity where the source counts it. resolve_depth follows at
-- most 8 links below the path, so it recurses on 9; the loop of read_range has as fuel the bytes
-- that are left plus one, and each round takes at least a byte of them. The loop of abs_path_of has
-- any fuel above the steps to the root, at most 256 of them. nonresident_pages has a round for each
-- page of its range. The decimal text of a 32-bit size has at most ten digits.
--
-- Not modelled: the system calls and the machine (syscall.rs, lib.rs), which work on guest memory of
-- the engine, chunk manifests, lazy executables and the network, and the engine, the bindings and
-- the vendored emulator.
pub mod Prelude
pub mod Digest
pub mod Chunk
pub mod Abi
pub mod Fd
pub mod Vfs
pub mod Pager
pub mod Manifest
pub mod LiftCache
pub mod Sched
