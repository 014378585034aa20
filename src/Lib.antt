-- ===== src/Lib.antt =====
-- proton-utils: a command line and a FUSE file system for Proton Drive, Lumo and accounts.
--
-- The parts that carry state of their own are these, and the files that model them:
--
-- Drive.Fd (api/drive/fd.go): a `FileDescriptor`. `Write` and `WriteAt` gather bytes into blocks
-- and hand full ones to goroutines that encrypt and upload them (`flushBlock`,
-- `encryptAndUploadBlock` of api/drive/upload_helpers.go); `Flush`, `Close` and `Sync` wait for
-- them and commit the revision (`commitRevisionFromTokens`). Fd.State has the record and what it
-- reaches outside the process, Fd.Write, Fd.Commit and Fd.Read the operations under the source's
-- names. The uploads in flight are a list, and a wait takes the order in which they complete, any
-- permutation of it (`Completes` in Fd.Completion). An upload that completes before the wait is
-- recorded in the wait: nothing reads its result earlier, and it does not depend on what is
-- written meanwhile. The other modules of Fd hold proofs.
--
-- Drive.XAttr (api/drive/xattr_posix.go): the extended attributes of a revision.
--
-- Drive.BufferCache (api/drive/buffercache.go): the cache of blocks that the descriptors share.
-- One function is one critical section under the mutex; a `Get` on a block in flight is two, `get`
-- up to the wait and `get_woken` after it. A channel is a number, and a predicate tells which are
-- closed; an element of the LRU list is a number too.
--
-- Drive.BlockStore (api/drive/blockstore.go, and `getDecryptedBlock` and `prefetch` of
-- api/drive/fd.go): the calls that read a block through the cache. Each is a state machine whose
-- turns are its critical sections and its fetch, and any number of them run with invalidations
-- between.
--
-- Drive.LinkCache (api/drive/objectcache.go and the methods of api/drive/client.go that call it):
-- the links kept on disk, the staging map of those read at the start, and the fetch that fills
-- them. LinkCache.Outside has the links, the keys and, as the records `Store` and `Fetcher`, the
-- store on disk and the server; LinkCache.Hydration reads the disk at the start. A write sets
-- `evicting` where the program starts the goroutine of an eviction, whose whole pass is
-- `run_eviction`.
--
-- Drive.Symlinks (api/drive/resolve_symlink.go): `ResolveFollow` over a `Tree` of links;
-- Symlinks.Splitting, Symlinks.Components and Symlinks.Walks describe what a path's components are
-- and where they lead without the code's functions.
--
-- Fuse (internal/fusemount): the file system. Fuse.Outside has the interfaces of handlers and
-- nodes that namespace.go declares, as functions that may panic, and what go-fuse gives;
-- Fuse.Dispatch the access check and the recovery of panics, Fuse.Children the wrapping of a child
-- node and the directory handles of readdir_handle.go, Fuse.Operations the methods of
-- `DispatchNode` in dispatch.go, and Fuse.Requests all of them, and the lookup in a directory's
-- handle, as one function of a request. The prefetches of `OpendirHandle`, goroutines that recover
-- nothing, run one after the other behind its deferred recovery. Fuse.Directories models the nodes
-- that implement these interfaces for Drive directories (drive/nodes.go) with the registry of live
-- nodes (drive/handler.go): nodes stand in a map by address, and Fuse.Directories.Nodes has their
-- methods. `ShareDirNode` and `LinkDirNode` do the same and are one record; `mkdir_errno` and
-- `rename` tell them apart where they differ. Fuse.Shares has the shares of the same handler, the
-- top-level directories, which the rest of Fuse.Directories does not read, and Shares.LinkIds the
-- directory `.linkid`.
--
-- Semaphore (api/semaphore.go): tasks that run under a limit. A task is at one of the points of
-- `Go` between which others may run, and a step takes it to the next.
--
-- Config (api/config, api/cache_config.go, api/service_config.go): Config.Param a setting and its
-- provenance, Config.State the configuration, Config.Selector the addresses of settings,
-- Config.Fields the table of fields with their parsers, Config.Mapping `Get`, `Set` and
-- `UnsetField`, Config.Listing `List` and `Show`, Config.Numbers what is used of strconv.
--
-- Keyring (internal/keyring/session_index.go): the index of stored sessions, over the system
-- keyring, the index file and encoding/json, which Keyring.Outside takes as records of operations
-- and laws. Keyring.Index has the operations, which are functions of the keyring's and the file's
-- state; names and IDs are valid UTF-8, which encoding/json keeps.
--
-- Base has the shared types: association lists for maps, byte lists for strings, results.
--
-- Bounds: the block size is an argument of the descriptor's functions; `block_size` is the
-- program's. The loops of Write and Read have one round of fuel for each byte, that of the
-- selector parser one for each byte and one more: each round takes at least a byte. The symlinks
-- that may still be nested are `maxSymlinkDepth` less the depth, and following one lowers them.
-- The number of entries that an eviction leaves is an argument; `eviction_target` is the
-- program's. Numbers are unbounded but for `strconv`, where an int has 64 bits, and offsets are
-- not negative. In the keyring's index an account always has a map of sessions, as the code writes
-- it.
--
-- Outside the model: gopenpgp, SHA-256, the clock, encoding/json, the block store and the server,
-- which are the functions of the records `Remote` and `Json`, and the fetch of a block, a
-- parameter of the functions of Drive.BlockStore, the object store on disk with its encoding, the
-- server's answers to the object cache, the Drive client that the directory nodes call, the tree
-- of links, and go-fuse. Those that pass no state on are functions of their arguments: a call that
-- is repeated gives the same result. Of the cache's operations a run has `PutError` only on a slot
-- that is being fetched, as its comment says it is used. Not modelled: the network set-up of
-- descriptors, the link tree's loading and decryption, authentication, the YAML file, the FUSE
-- nodes of files, inode numbers, Lumo and the command line, most of which is network, cryptography
-- or printing.
pub mod Base
pub mod Drive
pub mod Config
pub mod Keyring
pub mod Semaphore
pub mod Fuse
pub mod Tests
