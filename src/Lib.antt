-- ===== src/Lib.antt =====
-- Verification of the C++ library for ULog flight logs: the messages of the format, the reader that takes
-- a log in chunks as they arrive, the writer, and the container that keeps a log in memory.
--
-- The parts of the program, and how they work together. A `Reader` (src/reader.cpp) is given bytes in
-- chunks. It finds the messages in them, parses each (src/messages.cpp) and calls a method of a
-- `DataHandlerInterface` (include/ulog_cpp/data_handler_interface.hpp). `DataContainer`
-- (src/data_container.cpp) is a handler that stores what it is given, and `Writer` (src/writer.cpp) one
-- that serialises it again. Two classes stand over `Writer` and check what it is given: `SimpleWriter`
-- (src/simple_writer.cpp), and `zz_data_log` (src/zz_data_log.cpp), which also begins a new file when the
-- current one would grow too large.
--
-- Which file models which part:
--   Base/*                   outcomes of C++ code (a value, an exception, an access outside memory, a loop
--                            without end), reads through a pointer, methods with a state, std::map,
--                            std::stoi and std::to_string; include/ulog_cpp/exception.hpp
--   Messages/Raw             include/ulog_cpp/raw_messages.hpp: message types and the three-byte header
--   Messages/Field           `Field` with its parser and `encode`
--   Messages/Info, Format, ParameterDefault, AddLogged, Logging, Data, Dropout, Sync, FileHeader
--                            the class of that name in src/messages.cpp: `parse_x` is the constructor
--                            from memory, `serialize_x` is `serialize`, as the list of its writes
--   Messages/Value           the table kBasicTypes against the types that `Value` handles
--   Handler                  the virtual methods as a record over the state of the implementing class;
--                            their calls as data (`Event`), `run` for calls one after another
--   Reader/State, Start, Message, Front, Chunk
--                            the members of `Reader`; `readMagic` and `readFlagBits`; `readHeaderMessage`
--                            and `readDataMessage`; what is read of a header in front of that;
--                            `readChunk` with its loop, and `tryToRecover`
--   Reader/Keeps, Safety, StartSafety, PartialRound, Progress, Rounds, Recovery, Termination
--                            proofs for arbitrary bytes
--   Reader/Stream, StreamDirect, StreamRound, Delivery, Chunks
--                            proofs for streams of whole messages, cut anywhere
--   Container, Container/Order, Sound
--                            `DataContainer`, one function for each method, and what a run keeps
--   Writer                   `Writer`; the state holds the writes that its callback was given
--   Checks, Checks/Accepted, Sizes, Writable
--                            what `writeMessageFormat` of both checks; what is known of a format that passed
--   SimpleWriter, SimpleWriter/Trace, Flag, Consistent, Tables, Told,
--   Specified
--                            `SimpleWriter`, one function for each method; what it asks of its `Writer`; its
--                            tables; the messages of its calls, told from the calls alone
--   DataLog/Names, State, Init, Rotate
--                            `zz_data_log`: `generateNewPathOrFilename`; the members, and the methods that it
--                            has in common with `SimpleWriter`; the two `Init`; `Write`, `writeDataImpl` with
--                            the rotation, the constructor from a name, `CreateInstance` and `GetInstance`
--   DataLog/Alike, Again, Kept, Ready, Samples, Invariant, Files, Appended, Filed, Described,
--   Session, Numbering, Failure, Instance
--                            proofs: the second `Init` repeats the first; the logger between two samples;
--                            which samples stand in which file; the tables that `Init` makes; sessions;
--                            names with and without a version
--   Log/Simple, SimpleLog, SimpleProtocol
--                            a session of `SimpleWriter` and the reader together; the calls that it takes
--   Log/Mirror, Follow, Stored
--                            the same session, the reader and a `DataContainer` together
--   Log/Frames, Runs, Start, RoundTrip, Protocol
--                            the writer and the reader together; the order of calls a writer takes
--   Tests/*                  runs on concrete logs
--
-- A method takes the state of its object and returns an outcome with the state reached, also where it
-- throws. Bytes are numbers below 256 by convention; sizes are natural numbers. A uint16_t keeps its
-- wrap-around (`% 256` for each byte of it), and the comparison of a size_t that was cast to int keeps the
-- low 32 bits as a signed number (`exceeds_u16`, `to_int`). Floats and strings are their bytes.
--
-- Loops with fuel: the loop over the fields of a format gets the length of the text, of which every
-- round takes a semicolon at least; the loop of `readChunk`, the loop of `tryToRecover` and the calls
-- that these two make of each other get twice the length of the chunk plus the length of the partial
-- buffer and one more, and each round lowers that number. That the fuel is enough is proved.
--
-- What the operating system answers to `fopen`, and the time, are a parameter of the logger (`System`);
-- the files that it has closed are part of its state. The size of a message is an unsigned int that wraps
-- around, and so does the version in a file name; an id is a uint16_t. A struct in memory is the list of its
-- bytes.
--
-- Not modelled: the comparison operators and plain accessors of the messages; the debug output; the test
-- of the byte order, taken to pass; std::map's order of keys, which no code reads; the failure of an
-- allocation. Of the logger: its constructors with a callback or a start time, mutexes, fsync with the
-- count of writes that leads to it. The examples and tools only call the library.
pub mod Base
pub mod Messages
pub mod Handler
pub mod Container
pub mod Writer
pub mod Checks
pub mod SimpleWriter
pub mod DataLog
pub mod Reader
pub mod Log
mod Tests
