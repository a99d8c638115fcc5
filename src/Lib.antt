-- ===== src/Lib.antt =====
-- absnfs: an NFSv3 server for any absfs file system.
--
-- A client's call comes in as an ONC RPC message. The server decodes it (rpc_types.go), checks who
-- calls (auth.go), turns the file handle of the arguments back into a file (filehandle.go,
-- minheap.go), runs the procedure of NFS or MOUNT (nfs_handlers.go, nfs_proc_*.go,
-- mount_handlers.go), which does its work on the file system (operations.go) with the help of two
-- caches (cache.go), and writes the reply (rpc_types.go, attributes.go) as a record on the connection
-- (rpc_transport.go). The development models these parts.
--
-- - Prelude: names of the libraries, Boolean tests, lists, integers, association lists.
-- - Cache/Lru: the map and the access list of both caches of cache.go, updateAccessLog,
--   removeFromAccessLog, the eviction in Put and the loop of Resize. A list element has an identity,
--   as a pointer has. Lru/Inv is the invariant of map and list, Lru/View shows the cache as
--   the list of its pairs in order of use.
-- - Cache/Attr: AttrCache. Get locks more than once, and each critical section is a function of its
--   own; Attr/Steps has the step relation of all of them. Attr/Laws is about what a Get finds.
-- - Cache/Dir: DirCache, in the same way. Cache/ChildOf: isChildOf.
-- - MinHeap: uint64MinHeap. container/heap is not part of the repository: its slice is a list, and
--   of its order only the least element is seen.
-- - FileHandle: FileHandleMap, with Allocate, Get, GetOrError, Release, ReleaseAll and Count over a
--   type of files. `closed` records the calls of Close. FileHandle/Valid is the invariant, Evict and
--   Alloc are about the eviction, Reach is the step relation.
-- - Attrs: NFSAttrs of types.go; Attrs/Wire has its encoders, attributes.go, and Attrs/Fattr a
--   client's reader of RFC 1813 for what they write.
-- - Xdr and Rpc: rpc_types.go. A decoder takes the bytes that are left and returns a value or an
--   error and the bytes behind it; an encoder returns what it writes. The encoders of a client in
--   Rpc/Calls and Rpc/Credentials, and the reader of a client in Rpc/Replies, are written after RFC
--   1831 and are no code of the repository.
-- - Auth: auth.go, ValidateAuthentication. Auth/Ip has normalizeIP and isIPAllowed, over the parsers
--   net.ParseIP and net.ParseCIDR as parameters; Auth/Access is about who is let in, Auth/Squash about
--   the user and the groups that are left.
-- - Transport: rpc_transport.go, ReadRecord and WriteRecord over the bytes of a connection.
-- - Paths: sanitizePath of operations.go, with filepath.Join and filepath.Clean as they are on Unix,
--   and validateFilename and validateMode of nfs_operations.go. Paths/Clean is about clean absolute
--   paths, the directories of an export.
-- - Portmapper: portmapper.go, the table of services (Table), who may change it (Guard), and the
--   calls by their bytes (Handlers, Wire). Addresses and formatted text are those of parameters.
-- - RateLimit: the sliding window and the counts of file handles of rate_limiter.go.
-- - Ops: operations.go. The file system, an absfs.SymlinkFileSystem, is a record of functions; the
--   clock, the contexts and the FNV hash are another. An operation takes the server's state, the
--   files, both caches and the options, to a value or an error and the state after it. Ops/Nodes
--   has Lookup, GetAttr and SetAttr, Ops/Content Read and Write, Ops/Entries Create, Remove, Rename,
--   Symlink and Readlink, Entries/Listing ReadDir and ReadDirPlus, and Ops/Caches their calls of the
--   caches. Ops/Keeps, Steady and Changes say what an operation keeps if its parts do;
--   Ops/Requests runs sequences of operations; Ops/Coherent relates the attribute cache to the
--   files. Confined, Renames and Settings state what is asked of a file system there: which
--   paths a call can change what Lstat says of.
-- - Nfs: nfs_handlers.go, its replies on errors, and the steps that procedures are made of: reading
--   an argument, a check that ends in a reply, a file handle looked up or allocated, a file operation.
--   A procedure takes an exchange (the server, the handle map, the bytes of the arguments that are
--   left) to its answer and the exchange after it. Nfs/Sattr is decodeSattr3; Nfs/Info has GETATTR,
--   FSSTAT, FSINFO, PATHCONF and NULL, Nfs/Names LOOKUP and READLINK, Nfs/Attributes SETATTR and
--   ACCESS, Nfs/Data READ, WRITE and COMMIT, Nfs/Create CREATE, MKDIR, SYMLINK and MKNOD, Nfs/Remove
--   REMOVE, RMDIR, RENAME and LINK, Nfs/Listing READDIR and READDIRPLUS. Nfs/Dispatch has the table of
--   procedures (nfs_operations.go), MOUNT (mount_handlers.go) and HandleCall. Nfs/Keeps says what a
--   step keeps if its parts do, Nfs/Calls is about sequences of calls. Whether the rate limiter lets a
--   call pass, and whether a call meets a policy update or runs out of time, is given with the call.
--
-- Numbers are natural numbers with the wrap-around of Go's types written out: a handle and the
-- counters of DirCache are taken modulo 2^64. Instants and durations are integers, in nanoseconds,
-- without a bound; the zero time is 0. The caller of an operation passes the instants that
-- time.Now() returns, and the operations of operations.go take them from a clock.
--
-- Fuel: the eviction loop of Allocate gets `nextHandle`, since live handles lie below it, and
-- `none` would say that it ran out. The loop of Resize gets the length of the access list, of which
-- each round takes one element. The loop of WriteRecord gets the length of the data, since each
-- round writes a byte at least, and that of ReadRecord the length of what is to come, since each
-- round reads four bytes.
--
-- Not modelled: Export and Unexport, the token buckets of the rate limiter, which count in
-- floating point, the worker pool, the listener of the portmapper, sockets, TLS, options, logs and
-- metrics. The operations of operations.go run one after another
-- here; the interleavings of their cache calls are those of Attr/Steps and Dir/Valid. A writer that
-- fails does not occur, since the server encodes into buffers.
pub mod Prelude
pub mod Attrs
pub mod Xdr
pub mod Rpc
pub mod Auth
pub mod Cache
pub mod MinHeap
pub mod FileHandle
pub mod Transport
pub mod Paths
pub mod Portmapper
pub mod Ops
pub mod RateLimit
pub mod Nfs
