-- ===== src/Lib.antt =====
-- GPSEE embeds the JavaScript engine SpiderMonkey and adds CommonJS modules, data stores that
-- threads share, monitors and native modules. The parts that are modelled, and their files:
--
-- Base and its children hold what the others share: lists over native numbers, Boolean tests,
-- bytes, names, texts.
--
-- Util is gpsee_util.c: the copying of strings into buffers (gpsee_cpystrn, gpsee_catstrn),
-- paths (gpsee_basename, gpsee_dirname) and gpsee_resolvepath. A block of memory is the list of
-- its bytes, a write past it is `none`; `size_t` wraps at 2 ^ 64; PATH_MAX is 4096. `realpath`
-- and `malloc` are the parameter `System`. Util/Copy and Util/Path hold the proofs.
--
-- RequireLock is requireLock and requireUnlock of gpsee_modules.c. Each access of a word that
-- threads share is one step, and `Reach` collects the states of all interleavings. The
-- compare-and-swap is one step. A build without JS_THREADSAFE has no such lock.
-- RequireLock/Progress counts the turns of a thread that waits and of the owner.
--
-- Module and its children are the rest of gpsee_modules.c that loads modules. Handles are
-- addresses in a store, `calloc` gives a new one or NULL. Module has releaseModuleHandle,
-- markModuleUnused and finalizeModuleScope, Module/Scope has acquireModuleHandle and the set-up
-- of a scope, Module/Disk has the search for a module on disk and the two loaders, Module/Load
-- has gpsee_loadModule, which takes the lock, asks the internal modules, then the disk, and runs
-- the module's code. The lock is there as the depth that the thread sees. SpiderMonkey, the
-- dynamic linker and the file system are the parameter `Engine`, which changes a state of its
-- own; it does not call back into the module system. The code of modules is the parameter
-- `Program` and may change everything. The splay tree of freebsd_tree.h is the parameter `Splay`
-- with the laws of its operations. Module/Shutdown has the loop of gpsee_shutdownModuleSystem,
-- on fuel, with a bound that is enough, Module/Cleanup gpsee_moduleSystemCleanup, and
-- Module/Collect has moduleGCCallback and destroyModuleHandle; the other loops walk a list or
-- count down. The reserved slot of a `require` function is always read, names are copied without
-- an error, and assertions are those of a release build.
--
-- Monitor, DataStore and Runtime are gpsee_monitors.c and gpsee_datastores.c: tables of pointers
-- under a monitor, used as maps or as bags, and the list of the monitors of a runtime. NSPR and
-- `malloc` are the parameter `Platform`. gpsee_ds_forEach gets the callback as a parameter and
-- fuel, as a callback can make the store grow for ever; the bound that is enough is proved for
-- callbacks that do not. DataStore/Sequence has sequences of calls on one store, and the map that
-- they are set beside. GcCallback is gpsee_gccallbacks.c, which keeps its callbacks in such a
-- store.
--
-- ContextPrivate is gpsee_context_private.c: the list of the storages that users keep in a
-- context. Callbacks may change everything, and the loop that calls them at the end of a context
-- is on fuel. A failed realloc is a panic, `none`; the parameter `Host` has the allocator and
-- the callbacks.
--
-- Base64 and QuotedPrintable are the two codecs of modules/binary/base64.c. The loop of
-- qp_to_binary is on fuel, one round more than the text is long, as every round takes a byte of
-- it at least. An input of binary_to_b64 that is longer than an int counts is `none`, as its
-- counter overflows.
--
-- Xdr is gpsee_xdrfile.c, over the streams of Stdio. A stream of stdio is its file and where it
-- stands, without a buffer of its own: what fwrite has taken is in the file. Pointers are
-- numbers below 2 ^ 64; the map is read-only memory at the address that the parameter `mmap`
-- gives. Numbers stand in memory with the low byte first. Whether XDR_USES_MMAP is defined is a
-- parameter, as no file of the build defines it. Xdr/Session has the calls of the engine that
-- writes and reads a script.
--
-- Hooks is gpsee_hookable_io.c, with the loop of gpsee_realms.c that clears the hooks.
-- SpiderMonkey and stdio are the parameter `Host`, and what vsnprintf makes of a format is an
-- argument.
--
-- Async is the part of gpsee.c for asynchronous callbacks: a list sorted by context, whose
-- entries are found by their addresses. Each operation is one step, as it holds a lock. The loop
-- of gpsee_operationCallback is on fuel, as callbacks may add others; as many rounds as there
-- are entries are enough where they do not. A round of the thread is the contexts that it
-- triggers.
--
-- Realm is the book-keeping of contexts in gpsee_realms.c, over the data store that maps a
-- context to its realm. gpsee_createContext takes the cached context in one step, and the calls
-- of the engine that equip a context are one function of `Host`.
--
-- Php is modules/cgi/phpsess.c, the reader of PHP session files: the turn of the loop with its
-- switch, the loop, and phpSession_getString; Php/Strings has what the source uses of the C
-- library, Php/Load the locking and mapping of the file. A pointer into the mapped file is what
-- is left of the mapping from there. The loop is on fuel, one round more than the file has
-- bytes, as every turn but the last goes on by a byte at least. APR is a parameter: its pools
-- say whether they give a block, `Hash` is its hash tables and `Disk` what its calls on files
-- answer.
--
-- Bytes is modules/binary/bytethings.c, what ByteString and ByteArray share: arguments, access
-- to the buffer, searches; Bytes/Copy has copyJSArray_toBuf, and Bytes/Join byteThing_val2bytes.
-- What JS_ValueToNumber answers is an argument of the functions that ask once, so a conversion
-- that changes the object itself is not modelled there; in Bytes/Copy the engine has a state,
-- and the elements may change the array. The loop there is on fuel, 2 ^ 32 rounds, as its
-- counter has 32 bits. For null the source reads the class of no object: val2byte is `none`, and
-- byteThing_val2bytes ends as `crashed`.
--
-- Log is gpsee_makeLogFormat and gpsee_log of gpsee_unix.c. What vsnprintf and strerror give are
-- arguments.
--
-- Not modelled: gpsee_createRealm, the casts of bytethings.c, transcoding, the compiler cache,
-- the dump of pending writes, the script runner, the program module, and the native modules
-- other than the codecs, PHP sessions and byte strings: most of each is calls of SpiderMonkey or
-- of system libraries.
pub mod Base
pub mod Platform
pub mod Util
pub mod RequireLock
pub mod Module
pub mod Monitor
pub mod DataStore
pub mod Runtime
pub mod GcCallback
pub mod Base64
pub mod QuotedPrintable
pub mod Stdio
pub mod Xdr
pub mod Hooks
pub mod Php
pub mod Bytes
pub mod Log
pub mod Async
pub mod Realm
pub mod ContextPrivate
mod Tests
