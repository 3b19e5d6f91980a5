-- ===== src/Tests.antt =====
-- The theorems at concrete inputs, and runs of the code.
mod Stores
mod Codecs
mod QuotedPrintable
mod Xdr
mod Hooks
mod Async
mod Realm
mod Locks
mod Memo
mod Modules
mod Contexts
mod Engine
mod Ending
mod Php
mod Bytes
mod Log
