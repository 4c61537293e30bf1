-- ===== src/Lib.antt =====
-- The iouxx verification library: a model of the parts of iouxx, a C++ wrapper of liburing, that hold
-- logic of their own, and theorems about them.
--
-- The program. A `ring` (include/iouxx/iouringxx.hpp) owns an io_uring instance, its probe and a vector
-- of buffer rings; operations (include/iouxx/iouops) are built on it, submitted, and told of their
-- results by callbacks. The types of include/iouxx/iouops/network/ip.hpp parse and print IP addresses,
-- ports and socket addresses. include/iouxx/util/utility.hpp holds the error codes and conversions that
-- all of them use.
--
-- The files.
--   Base: shared helpers. Base/Result is std::expected and std::error_code with the helpers fail and
--     make_system_error_code; Base/Int the signed integers of C++ over the native numbers; Base/Tests,
--     Base/Lists, Base/Predicates and Base/Options are tests, lists, predicates and options.
--   Text: Split is std::views::split and contains of a text, Number is std::from_chars and the integer
--     formats of std::format, with the lemmas on both. A text is a list of bytes.
--   Ip: include/iouxx/iouops/network/ip.hpp. Bytes has the byte orders, as a parameter for both kinds of
--     machine. V4 is address_v4 (from_string, from_string_uncheck, to_string), V6 is address_v6, with
--     its parser in V6/Parse and V6/Parse/Uncheck, its format specification in V6/Spec and its
--     formatter in V6/Format. Port is port, SocketV4 and SocketV6 are socket_v4_info and
--     socket_v6_info, and Endpoint the loop that these two parsers share. The children of these
--     modules hold the proofs. A parser that fails returns an error code as in the source. An
--     assumption of an unchecked parser that fails is the result none.
--   Ring: include/iouxx/iouringxx.hpp. Version is ring::version_info, Setup is ring_option, Liburing
--     the calls of liburing as a record of operations over an arbitrary state, State the members of
--     ring, Lifecycle the methods do_init, reinit, stop, exit and those of buffer groups, Results the
--     methods submit, fetch_result and wait_for_result, Operation the class operation_base with the
--     two kinds of callback of the library, Awaiter the class operation_awaiter with the steps of
--     a program of coroutines, Insert the filling of buffer rings, Tables the tables, features, NAPI and
--     workers, Register the registration of buffers and descriptors by address. What liburing answers is
--     not fixed: theorems that need more than its types take it as a hypothesis, which a small liburing in Tests/Kernel
--     fulfils. Lifecycle/Balance keeps books on what a ring obtains and gives back.
--   Clock: include/iouxx/clock.hpp.
--   Time and Timeout: the conversions of time of include/iouxx/util/utility.hpp, and the operations of
--     include/iouxx/iouops/timeout.hpp. Noop and Cancel are the operations of
--     include/iouxx/iouops/noop.hpp and include/iouxx/iouops/cancel.hpp.
--   Futex: the operations of include/iouxx/iouops/futex.hpp.
--   Ops: what all further operations share: the submission queue entry, the flag for a fixed file, what
--     is made of a result, and the files of include/iouxx/iouops/file/file.hpp. An operation hands a call
--     of liburing with its arguments to a parameter that says what liburing leaves in the members of the
--     entry, and then changes these members as the code does. The functions X_build and X_do_callback are
--     the member functions build and do_callback of the operation X.
--   Net: include/iouxx/iouops/network. Sockets and Protocols are the socket classes and
--     protocol_database of socket.hpp, Prepare is sockprep.hpp, Connecting is connection.hpp, SendRecv is
--     sendrecv.hpp, and Options is sockcmd.hpp, with the table of its
--     options in Options/Names and the classes of their values together in Options/Classes. Uds is uds.hpp.
--   Files: include/iouxx/iouops/file. Io is fileio.hpp, Open is openclose.hpp, Directory is directory.hpp
--     and Poll is poll.hpp.
--   Tests: runs on fixed inputs, and the theorems at concrete inputs.
--
-- Bounds. Words, bytes, ports and addresses are natural numbers with a stated bound; conversions to
-- narrower types write the modulus out. The digits of a number are written on fuel, one more than the
-- number, of which each round takes one and leaves the number divided by its base; the reading of them
-- is by recursion on the text. Loops over parts of a text are by recursion on the list of parts. The
-- vector of buffer rings has its 65536 places; a group number is a std::uint16_t and lies within. A loop
-- over protocol_database takes at most one round for each of its 512 places and one for the end.
--
-- Not modelled: what a coroutine runs when it is resumed, concepts, constructors that only store,
-- modules, macros and tests. Assertions are preconditions. liburing, the kernel and the entries of
-- getprotoent are parameters; a failed allocation is an argument. An iterator of protocol_database is the
-- part of the vector from it to the end.
pub mod Base
pub mod Text
pub mod Ip
pub mod Ring
pub mod Time
pub mod Clock
pub mod Timeout
pub mod Noop
pub mod Cancel
pub mod Futex
pub mod Ops
pub mod Net
pub mod Files
mod Tests
