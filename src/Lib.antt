-- ===== src/Lib.antt =====
-- Verification of parts of the esq server: the hash locks between its sessions, and the string
-- routines that stand between a request and the files and tables of the server, and its range maps.
--
-- The program. A server runs sessions on worker threads. A session (session/session.c) that needs a
-- shared resource asks for one of 128 hash locks (session/hash_lock.c); where it has to wait, the
-- release by another session puts it on the wake-up list of its worker. A session that waits for an
-- event stands in one of the timing lists of its worker (session/timing.c), which also bound how long
-- the worker polls. Requests come in as URLs and form data. Their paths are decoded from percent
-- encoding (libs/escape-percent), cleared of repeated slashes (libs/remove-redundancy-slash), split at
-- the last slash (libs/find-last-slash), and tested before they are joined to a directory
-- (libs/path-is-very-safe, with libs/utf8-to-unicode). The parameters of a URL are split in place
-- (libs/url-parameters-spliter). Numbers, addresses and hash strings are scanned from text
-- (libs/sscanf), and sets of paths are kept in Bloom filters (libs/path-bloom-filter). A matcher
-- (libs/head-match-tree) finds the handler of a path by its longest known prefix. Requests for an
-- object that is stored elsewhere are led to the servers that keep its range of hashes, which the
-- range maps (src/range-map.c) know.
--
-- The files.
--   Base           shared names; Base/Memory is byte memory, a function from offsets to bytes
--   Chain          singly linked lists in memory, against lists of addresses, and parts of them
--   HashLock       session/hash_lock.c and the contexts of session/session.c. A call is a function
--                  on the memory (HashLock/State), named as in C; a macro has its name in lower case,
--                  and a label or a loop a definition of its own. An outcome is a value, the end of
--                  the process by esq_design_error, a null dereference, or the end of the fuel.
--                  HashLock/Queue says when memory holds a queue, and the other children what the
--                  calls do to it
--   HeadMatch      libs/head-match-tree: new.c and add.c, with HeadMatch/Compile and HeadMatch/Match for
--                  the files of these names. Index, Border, Good, Fill and Node say what the tables of
--                  jumps are, Else what the table behind them is, Order, Insert and Keeps what the
--                  order of the patterns is worth, Longest, Search and Lookup what a search finds, Compiled and
--                  Adding what comes of it for the functions that are called
--   RangeMap       src/range-map.c: the index of a map, its construction and the search, over the
--                  memory of the nodes (RangeMap/State) and over trees that are a parameter with the
--                  laws of a search tree (RangeMap/RbTree). RangeMap/Commands, Edit, Addresses and
--                  Buckets have the functions on the list of maps. RangeMap/Groups, Load, Link, Levels,
--                  Find, Clean and Refine take the construction apart, from the nodes of one hash to the
--                  whole map, Connecting the loops of the notices of a bucket, and Serving, Report,
--                  Delete, Add, Translate and Notify say what comes of it
--   DoubleList     the macros DOUBLE_LL_JOIN_HEAD and, in DoubleList/Left, DOUBLE_LL_LEFT of
--                  public/esqll.h, on memory
--   Timing         session/timing.c: joining a timing list, the interval of the polling, in
--                  Timing/Left leaving a list, in Timing/Deadline the test of the deadlines, and in
--                  Timing/Notified what it makes of the time that joining stores
--   EscapePercent  libs/escape-percent/escape-percent.c
--   Slash          libs/find-last-slash and libs/remove-redundancy-slash
--   Utf8           libs/utf8-to-unicode/utf8-to-unicode.c
--   SafePath       libs/path-is-very-safe/path-is-very-safe.c, on top of Utf8
--   Scan           libs/sscanf: Scan/Integer, Scan/Ipv4 and Scan/HashString, one file of C each, with
--                  the decimal numbers of Scan/Decimal
--   UrlParams      libs/url-parameters-spliter: the state machine of esq_split_parameters, one turn
--                  of its loop at a time, and the decoding of what it finds (UrlParams/Escape)
--   PathBloom      libs/path-bloom-filter/path-bloom-filter.c
-- Tests stand beside the modules that they are about.
--
-- Conventions. A routine that writes to its buffer works on byte memory; one that only reads it takes
-- the list of the bytes. Bytes are numbers below 256. Unsigned integers of 32 bits keep their
-- wrap-around, and so do the sums of int in the test of the deadlines and the conversion of a time to
-- int, although C leaves a sum that does not fit undefined: the theorem on the deadlines is on sums
-- that fit. Where the model has plain numbers, the values are small by what is tested before. A
-- table of C is a function with the same value at each byte. An error return is `none`, or a code
-- where there are several. strnlen and strncmp are modelled by their documented behaviour, malloc and
-- the state of the server are arguments.
--
-- Fuel. Loops over a string take more fuel than the string has bytes, loops over a queue more than it
-- has contexts, and the theorems say so. `escape_percent_in_place` has one turn more than its buffer
-- has bytes, `path_is_very_safe` one more than the 2048 that its own bound allows. A matcher takes as
-- much as the bound of its patterns and their number together. The walks over a range map take more
-- fuel than the map has nodes.
--
-- Not modelled: the protocol threads of the sessions, the notices of the timeouts, worker lists, the
-- lock and the printing of the range maps, the red-black trees, which are a library of another
-- project, the HTTP/2 wrapper, the databases and caches, and everything that is input, output or
-- start-up.
pub mod Base
pub mod EscapePercent
pub mod Chain
pub mod HashLock
pub mod Slash
pub mod Utf8
pub mod SafePath
pub mod Scan
pub mod PathBloom
pub mod UrlParams
pub mod DoubleList
pub mod Timing
pub mod RangeMap
pub mod HeadMatch
