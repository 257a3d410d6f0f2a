-- ===== src/Lib.antt =====
-- C2R is a client library in C for Rserve, the TCP server of R: a program connects, has R evaluate
-- text, and exchanges numbers, booleans, strings and vectors with it. This library models all of
-- src/ (the C files), the constants of rincs/Rsrv.h and inc/ that it uses, and the sample programs of
-- sample_client_socket/.
--
-- The parts and the files that model them:
--   * Common: the shared names; native numbers, signed integers, byte strings, little-endian words.
--   * Os: the system as the program sees it, a record of operations over an unknown state (read,
--     send, close, socket, connect, setsockopt, inet_pton, malloc, posix_memalign, atoi). An action
--     is a function of the state; its outcome is a value, a negative status (go_BYE, cBYE and
--     return_if_malloc_failed of inc/macros.h), undefined behaviour, or a loop of the model that ran
--     out of fuel. Os/Link states what the documentation promises of a working connection: the bytes
--     to come form a stream, and a read takes any part of its front. Os/Script is a concrete system.
--   * Wire: struct phdr, mk_hdr and mk_dt_string of src/aux_rcli.c, and the constants.
--   * Client: the other functions of src/aux_rcli.c: read_hdr, get_buf_from_sock, close_conn,
--     exec_str, rshutdown, rconnect. Client/Session runs a list of commands. Every other part talks
--     to the server through these.
--   * Query: what the functions that print a command and call exec_str share.
--   * Scalar: get_F8 and get_I4 of src/get_F8.c and src/get_I4.c.
--   * GetVec: get_vec of src/get_vec.c. SetVec: set_vec of src/set_vec.c; SetVec/Stores spells the
--     bytes of its messages out.
--   * VecLen: get_vec_len of src/get_vec.c, and the function of the same name of src/get_vec_len.c.
--   * NamedVec: get_named_vec_F8 of src/get_named_vec.c.
--   * Flags: src/get_bool.c. Exists: src/exists.c. Frame: src/n_df.c and src/chk_R_class.c.
--   * FrameText: mk_df_str of src/mk_df_str.c. Shutdown: src/rshutdown.c and src/get_time_usec.c.
--   * Server: the other end, as the comments of rincs/Rsrv.h describe the protocol: a stream of bytes
--     is read as messages and parameters, and a server keeps variables, has R evaluate texts, and
--     answers. R itself is an argument (Evaluator), a function with laws on the few texts that the
--     library sends; Server/Simple is one that has them. Session: a client that calls functions of
--     the library in any order, and the relation that says what each call does to R's variables.
--   * UnitTest: nine of the tests of test/unit_test_1.c, with doubles as their bytes. Programs has
--     those that have R run texts of their own, and Texts what R is to make of these (HasPrograms),
--     Named the named vector of test7; Interpreter is a small R that does all this.
--   * Api: a client that calls the functions of the library one after the other, whatever their
--     results. The Settles module below each part shows that its functions end.
--   * Samples: sample_client_socket/. Samples/MyClient and Samples/MyServer model func and main of
--     my_client.c and my_server.c, over the calls of Net (Samples), which extends Os by write, bind,
--     listen, accept and getchar; Samples/Transfer has the reads and writes over a working connection.
--     Samples/Echo puts the two programs together: a world with both programs' places and buffers and
--     the bytes on the way, and a step for each read and write, in any order; a read may be cut or
--     fail, a write may lose bytes or fail, and a closed connection is seen. IsWholeRun singles out
--     the runs in which nothing goes wrong up to the client's end. Samples/Chat models
--     client.c and server.c. Samples/Console is a concrete system.
-- A function keeps its name in the case of the language (get_F8 is get_f8, chk_R_class is
-- chk_r_class). Pointers that the code only tests for NULL are Options or Pointers; an output that
-- is stored through a pointer is the result.
--
-- Bounds and fuel. Unsigned arithmetic keeps its wrap-around (% 2 ^ 32, % 2 ^ 64), and conversions
-- to int are int_of. An int that counts bytes of an object in memory is a number. The loop of
-- mk_dt_string runs on a fuel of 8, as a multiple of 8 is at most 7 steps away
-- (Wire/Padding); the loop of get_buf_from_sock on the number of bytes that are missing, as each
-- round reads one at least (Client/Status and Client/Transfer show that it is never cut off).
-- The server reads one message and one parameter for each unit of fuel, and is given as many as
-- there are bytes. The loops of the sample programs need not end; their fuel and `rounds` bound the
-- rounds that are looked at, and theorems on them are for every fuel above a bound, or for all.
--
-- The proofs: Os/Link and Os/Fails relate a run to what it reads and sends, Os/Clean lists the ways
-- out of an action, Os/Ends those that do not return, and Os/Returns takes a run that returned a
-- value apart. GetVec/Store runs set_vec and get_vec in a session and relates them to a table of
-- vectors, GetVec/Served to a server that reads their bytes. Session/Texts, Answers, Reads and Calls
-- go through the calls one by one, and Session/Values through a list of them. UnitTest/Says and
-- Rounds go through the rounds of the tests that have R run texts, and UnitTest/Passes through the
-- tests. Os/Settles has one rule for each way to build an action that ends. Samples/Echo/Phases lists
-- the five phases of a round of the benchmark, Invariant shows that every step leads from a phase to
-- a later one, and Progress and Safety draw the conclusions.
-- Samples/Chat/Session goes through a whole chat. The module of a part has its definitions, those
-- below it have its theorems, and Examples tests at concrete data.
--
-- Not modelled: what is printed; the release of memory, except where an indeterminate pointer is
-- freed; the two calls of memset on the caller's buffers in get_named_vec_F8 (test7 finds
-- the rest of its array cleared); the branch of set_vec under a flag that is constantly false; RDTSC
-- of my_client.c, and signals; of the unit test, test3, test3_SC, test10 and test11, and its main; the scripts,
-- and the headers of Rserve in rincs/ beyond the constants, which are a copy of another project's.
pub mod Common
pub mod Os
pub mod Wire
pub mod Client
pub mod Query
pub mod Scalar
pub mod GetVec
pub mod SetVec
pub mod VecLen
pub mod NamedVec
pub mod Flags
pub mod Exists
pub mod Frame
pub mod FrameText
pub mod Shutdown
pub mod Server
pub mod Session
pub mod UnitTest
pub mod Api
pub mod Samples
