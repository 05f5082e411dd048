-- ===== src/Lib.antt =====
-- A model of the bytecode verifier and interpreter for the Lama virtual machine of Assignment04, of the
-- interpreter without a verifier of Assignment02, of the analyzer of the bytecode of Assignment03, of the memory pools of Assignment06 and 07, of the string
-- pointers of Assignment08, of the guarded read of Assignment09, and of the thread pool with its bounded deque and the parallel memcpy of
-- Assignment10.
--
-- Assignment04/src/main.cpp reads a bytecode file (file_reader.cpp) into a `bytefile` (bytefile.cpp),
-- has the verifier check it and write the stack depth of each function into its BEGIN instruction
-- (verifier.cpp), and runs it with an interpreter that leaves out the checks that the verifier has
-- made (interpreter.cpp). The three share the `bytefile`; verifier and interpreter share the array
-- `stack_buf` (stack.h), as a work set first and as the stack then. The analyzer reads the same files,
-- and so does the interpreter of Assignment02, which makes the checks itself while it runs.
-- parallel_memcpy gives its chunks to a thread pool, which keeps them in a bounded deque: the number of
-- tasks is at most that of the threads, which is the capacity of the deque.
--
--   Common        numbers, lists, results with errors, machine words
--   Bytecode      enum class bytecode and varspec of bytefile.h, with their bytes
--   Bytefile      class bytefile and public_symbol: bytefile.h, bytefile.cpp
--   Error         how a run can stop: failure, an exception, an access out of an object
--   FileReader    read_file of file_reader.cpp; Image is the format of the file, Contents what
--                 reading a file of that format gives
--   Verifier      verifier.h and verifier.cpp: StackSize and WorksetEntry are the two packed words,
--                 State the fields and elementary steps, Delta get_stack_delta, Process the process_
--                 functions, Visit visit_op, Traverse the loop and verify; Operands, Merge, Keeps,
--                 Depths and Bounds are about them
--   Interpreter   interpreter.h and interpreter.cpp: Value is class value with the arithmetic,
--                 Runtime the functions of the runtime that are called, Machine class state, frame
--                 and stack, Execute, Objects and Calls the handlers, Loop interpret; Effect, Frames
--                 and References are about them, and
--                 Samples has states for the tests
--   CheckedInterpreter  Assignment02/src/interpreter.h and interpreter.cpp: Machine, Execute, Objects, Calls and
--                 Loop as in Interpreter, whose State, Value and Runtime it uses; Refines
--                 compares the two interpreters, Reports is about what the checks leave to go wrong
--   BoundedDeque  Assignment10/src/bounded_deque.h, in which the thread pool keeps its
--                 actions; Represents is the list that a deque stands for, Refine and
--                 Move are about the operations; what `Container{size}` makes is a parameter
--   IdiomAnalyzer Assignment03/src/idiom_analyzer.h and idiom_analyzer.cpp: Flow says which addresses
--                 can be reached, Find and Sort are find_idioms and sort_idioms; Adds, Search,
--                 Invariant, Symbols and Reachable are about the search, Rounds, Found and Counts
--                 about the idioms
--   ThreadPool    Assignment10/src/thread_pool.h: workers and clients as a step relation; Took is what
--                 a worker does with the mutex, Awake, Order and Stop are about all runs
--   ParallelMemcpy  Assignment10/src/parallel_memcpy.cpp: Chunks is about how a copy is cut, Copies
--                 about the tasks in any order, Caller the steps of the tasks and of the caller
--                 that waits for them, Returns and Delivers about its return; the pool has room for the
--                 tasks by Chunks
--   StringPtr     Assignment08/src/string_ptr.h and string_ptr.cpp: Owns is who owns a string, Steps
--                 and Safety are about every operation, Views about what the assignments show
--   MemoryPool    Assignment07/src/pool.h and pool.cpp, and with it Assignment06/src/pool.h and pool.cpp;
--                 Blocks is about the blocks that a pool gives out, Registry is pool_registry.h and
--                 pool_registry.cpp, Clients the threads that use it, Places and Exclusive are
--                 about their steps and runs, Handler is the number that sigsegv_handler.cpp writes
--   SafeRead      Assignment09/src/safe_read_uint8.cpp; Reads is about what it returns and leaves behind
--
-- A member function has its name in the model; it takes the object's state and returns the new one
-- in a Result. Numbers are natural numbers; an int32_t or uint32_t is its pattern below 2 ^ 32, and
-- each wrap-around is written out. A call of `failure` is an error with its message and the offset.
-- An access outside of an object is the error `undefined`: the language says nothing about such a run.
--
-- The functions of the Lama runtime are the fields of the record Runtime, since their code is another
-- project's. What the file system and `operator new` answer are parameters of read_file, and what
-- the memory and sigaction answer are those of the guarded read. The block
-- that `operator new` returns keeps what it held, as in the code.
--
-- The loops of the verifier and of the interpreter run on fuel, one unit for one round, and return
-- `none` where it is used up: a program can run forever. The loop that
-- counts the digits of a size_t has 20 rounds at most. The loop over the captured variables and
-- the one over the symbol table count down their numbers. The two loops of the idiom analyzer run on
-- fuel too; the size of the code plus one is enough for them.
--
-- The threads of the thread pool are a step relation: what a thread does while it holds the mutex is
-- one step, and the calls of the condition variable are steps of their own. The tasks of a parallel
-- memcpy are run in any order, each as a whole up to its `notify_one`, since they write to different places. The allocations
-- of a pool are taken one after the other, the operations of the registry both so and as steps of
-- several threads.
--
-- Not modelled: printing and the program's exit code; the destructor of bytefile; exceptions of the
-- vectors that read_file makes when there is no memory for them; the garbage collector, which an
-- allocation is given the live stack for; idiom_hasher, which nothing calls; failures of mmap and
-- mprotect, what the signal handlers of Assignment06 and 07 do but for a number that they write, and a look into the registry while a pool is
-- being registered. Assignment01 measures times, Assignment05 is
-- in Java, runtime and byterun are copies of another project.
pub mod Common
pub mod Bytecode
pub mod Error
pub mod Bytefile
pub mod FileReader
pub mod Verifier
pub mod Interpreter
pub mod CheckedInterpreter
pub mod BoundedDeque
pub mod IdiomAnalyzer
pub mod ThreadPool
pub mod ParallelMemcpy
pub mod SafeRead
pub mod StringPtr
pub mod MemoryPool
