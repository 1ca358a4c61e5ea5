-- ===== src/Lib.antt =====
-- Trapfetch reads the files of an application into the page cache before the application asks for
-- them. Three programs work one after the other. The tracer (tracer/) runs the application under
-- ptrace and logs its file mappings, next to the wrapper library that logs its reads and the
-- return addresses of some calls. The analyzer (analyzer/) cuts the log of reads into lists, keeps
-- the bursts, merges reads of one file, and gives each group of reads a trigger: an instruction
-- that the application runs once, in the idle time in front of the group. The prefetcher
-- (prefetcher/) plants breakpoints at the triggers, and reads a group ahead when its breakpoint is
-- hit.
--
-- Base holds what all parts share: Boolean tests, lists under native numbers, signed integers.
-- Hash is common/hash.c. PidTab is the process table, which prefetcher/prefetcher.c and
-- tracer/tracer.c have in common, and Wait the macros on wait statuses and the entry of a process
-- into the table. Prefetcher is prefetcher/: Lists the lists of prefetcher.h, Readahead
-- _do_prefetch, State the global variables with do_prefetch, Breakpoint insert_breakpoints and the
-- handling of a breakpoint, Trace the function trace, Start the function startup_child, Runs the
-- loop of main.c as the steps that it can make, Scan the reading of the files bp and pf. Tracer is
-- tracer/tracer.c, with the same parts, and Print the bytes of a line of its log. Analyzer is
-- analyzer/: Queue the ring of queue.c, Merge, Burst and Groups the passes merge, burst_detection
-- and reordering_pf_list of analyzer.c, Trigger the function set_trigger with the list of triggers
-- and the candidates in the hash map; Analyze the functions an_init and analyze, Sort the function
-- reordering_read_list, Meta generate_meta_list, and Output generate_prefetch_data, Print the
-- bytes of its lines; Scan is the reading of the logs, Blocks get_logical_blk_addr of file.c;
-- Passes puts the passes together as main.c does. Prefetcher/Init is the loops of pf_init, and
-- Handover joins Output to Init, and, in bytes, the printing of each file to its reading. Text is
-- what the programs ask of fprintf, sscanf, strtol and fgets. Names is the C library's functions
-- on file names; Files the opening of files in the analyzer, Child the child processes of the
-- tracer and the prefetcher with the names of their files, Init the setting up of the wrapper, and
-- Handover/Launch what these names and children have to agree on. BioChecker is the function
-- my_write of modules/bio_checker.c. Wrapper is wrapper/wrapper.c. Old is old/sources, where the
-- earlier versions of the programs are kept: Old/Digest, Old/Stack and Old/Gatherer are gatherer/,
-- with hash.h, stack.c and the function trace; Old/Groups, Old/Queue, Old/Trigger, Old/Analyze and
-- Old/Print are analyzer/, with append_burst_list, the queue, get_trigger, analyze_data and
-- prn_burst_list; Old/Caller is prefetcher/caller_64.c, the start, one round of its loop and, in
-- Runs, the loop; Old/LibWrapper is libwrapper/wrapper.c. Old/Logs joins the gatherer and its
-- wrapper to the analyzer, and Old/Data the analyzer to the prefetcher, by the bytes of the lines
-- that one prints and the other reads. Definitions have the names of the functions that they
-- model; a part of a function that has a definition of its own is named in a comment there. The
-- modules below a component prove its properties, and the modules Tests run them at concrete
-- states.
--
-- How the code is modelled. A list is the sequence of its nodes; a pointer to a node of a list
-- that only grows is its position. The global variables are a record that the functions take and
-- return. What the kernel and the C library answer is an argument: the status of waitpid, the
-- registers, the path behind a descriptor, the clock, the success of a call. The requests that the
-- programs make are values: the readahead ranges, the ptrace requests, the log lines. An exit with
-- a failure is a value of its own. The memory of the traced processes, the floating point numbers
-- of the processor and the library analyzer/hashmap.h are records of operations with the laws that
-- the code relies on. A request for a word of memory names a process; the processes themselves may
-- change the memory between two calls of trace, and what is asked of them is a condition of the
-- theorems on the code. `int` counters are 32-bit patterns, addresses and digests 64-bit patterns;
-- the time stamps, offsets and lengths of the logs, which are `long long`, are integers without a
-- bound. A queueing time is the integer before its conversion to `double`.
--
-- Loops without a structural bound run on fuel: the loop of _do_prefetch on the number of its
-- pieces, the passes of merging_read_list on the number of reads, the loop of reordering_pf_list
-- on the number of lists, the emptying of the queue on more than the 32 slots, the digits of a
-- number on its value, the lines of a file on its bytes, the passes of reordering_read_list on the
-- square of the number of reads, the loop of analyze_data on the number of lines of its two logs
-- and three rounds more, the loop of do_prefetch in caller_64.c on the number of its pieces. Each
-- round takes one of these away.
--
-- The text formats follow the C library: a number is read with its blanks, sign and limits, `%p`
-- prints the null pointer as (nil) and reads that back, and a conversion that fails gives no
-- record. The names of the files and the paths are sequences of bytes; that they fit the buffers
-- of 512 bytes that they are put together in is taken for granted.
--
-- Not modelled: the builds for 32-bit processors; the registration of the kernel modules in
-- modules/; test/, script/; in old/ the copies for 32-bit processors, warmstart/, coldstart/,
-- examples/ and modules/, and what the children do between fork and execv. The program's input and
-- output is left out because it has no state of the program's own, and the rest because it stands
-- apart from the three programs.
pub mod Base
pub mod Hash
pub mod PidTab
pub mod Wait
pub mod Analyzer
pub mod Tracer
pub mod Prefetcher
pub mod Handover
pub mod Wrapper
pub mod Text
pub mod BioChecker
pub mod Names
pub mod Old
