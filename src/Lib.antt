-- ===== src/Lib.antt =====
-- A verification library for the programs of this repository, course assignments in systems
-- programming: a shell, a caching HTTP proxy, a reader of Unix v6 file systems, a news aggregator,
-- a farm of workers, a tracer of system calls, the starting of programs with pipes, threads that
-- print in order, a small xargs, and a search in a database of reviews. The programs do not call
-- one another; each has a tree of its own.
--
-- Base: Boolean tests, lists, text as lists of character codes, std::map as a sorted list (Map),
--   numbers in text, strtol and std::stoi (Number), int and long (Int), the order of std::string
--   (TextOrder), lists in the order of their keys (Ascending), getline and operator>> (Stream).
-- Stsh (assign4): Process, Job, JobList are the classes STSHProcess, STSHJob, STSHJobList. Shell
--   is the state of the process and a monad over it: the job list, the mask for SIGCHLD, the calls
--   made so far, and the answers of the operating system, which are a parameter, as are the changes
--   of children that a SIGCHLD delivers. Signals, Builtins, Create and Main are the functions of
--   stsh.cc: updateJobList and waitForForeground, handleBuiltin, createJob, the loop of main.
-- Proxy (assign6): Header, Payload, Request, Response, StrikeSet, Cache, Handler and Options are
--   the files of those names; Bridge is the tunnel of CONNECT in request-handler.cc, over what wait
--   and the two streams deliver in each round, and part of Handler; Options also has
--   configureFromArgumentList of proxy.cc. The string functions of the course's library, the
--   network, the clock, the regular expressions' match and the hash are parameters.
-- Fs (assign2): Disk (diskimg, unixfilesystem), Inode, File, Directory, PathName, Checksum, Dump
--   (diskimageaccess.c). The image is a function from sectors to bytes, with the reads that fail.
-- News (assign5): Pool (thread-pool.cc; a round of the dispatcher is two steps, the mark of a
--   worker as unavailable and the pop of its task; Runs has the interleavings of the threads as a
--   relation), Index (rss-index.cc, article.h), Aggregator (news-aggregator.cc, with the downloads
--   as a parameter and articles one after the other), Query and Setup (the queries, the arguments
--   and the list of feeds, of the same file), Text (utils.cc), Log (log.cc).
-- Farm (assign3/farm.cc): the workers with their flags, and the count; Main is the main program
--   over the lines of the input, with the signals that arrive as a parameter.
-- Trace (assign3): Options (trace-options.cc), Params, Signatures and Store
--   (trace-system-calls.cc: the types of parameters, the signatures in the kernel's sources, the cache file),
--   Tables (the numbers of system calls, and trace-error-constants.cc), Print (trace.cc). The
--   changes of state of the traced program are a parameter, as are the matches of the regular
--   expressions.
-- Processes (assign3): Descriptors (the table of a process and the system calls on it), Subprocess
--   (subprocess.cc) and Pipeline (pipeline.c). The descriptors that the kernel gives to a pipe, and
--   which calls fail, are parameters.
-- Exargs (lab2/exargs-soln.cc): the tokens of the input and the status that main returns.
-- Parallel (assessment2/parallel_calculate.cc): the threads with their two queues; a step is what
--   a thread does between the locking and the unlocking of a mutex, and Run has the interleavings.
--   A thread asleep on the condition variable takes no step until notify_all wakes it.
-- Reviews (assign1): Memory (the bytes of the two files), Keywords, Terms, Query, Search and
--   Record (amazon.cc), Compare, Arguments and Session (amazon_search.cc). std::sort is a parameter.
--
-- Fuel: the loops over a stream, a text or a sum of two lists have its length as fuel, since each
-- round takes something from it; the write loop of the farm has the number of bytes; digits are
-- printed with the number itself as fuel, since a round divides it by ten or sixteen; a binary
-- search has the length of its range; a session of queries has the number of lines of input and
-- one. Two loops of trace and the dump of the paths of an image take any fuel, since they need not
-- end.
--
-- Not modelled: the parser of the shell, sockets, the files of the cache, the start of the farm's
-- workers and of the traced program, the mapping of files into memory, and the tests.
pub mod Base
pub mod Stsh
pub mod Proxy
pub mod Fs
pub mod News
pub mod Farm
pub mod Trace
pub mod Reviews
pub mod Parallel
pub mod Processes
pub mod Exargs
