-- ===== src/Lib.antt =====
-- protoClojure: a model of parts of the Clojure implementation on protoCore, and what holds of it.
--
-- A source text goes through the lexer (src/reader) to the reader and the compiler, which emits
-- bytecode modules (src/runtime/BytecodeModule.cpp) for the execution engine. Programs read and write
-- JSON (src/runtime/Json.cpp) in the ways of Cheshire and of clojure.data.json. Actors run their
-- messages on the threads of a scheduler (src/runtime/ActorScheduler.cpp). Primitives keep what they
-- hold in slots that the collector reads (src/runtime/CallerSlots.cpp). A debugger talks to the
-- program over framed JSON messages (src/dap). The parts that are modelled:
--
--   Base             what every part shares: Boolean tests, lists and texts over native numbers.
--   Utf8             src/reader/Lexer.cpp: decodeUtf8 and appendUtf8.
--   Reader.UnicodeLetters  src/reader/UnicodeLetters.h: the table of letters and isSymbolLetter.
--   Reader.Token     src/reader/Token.h and tokenKindName.
--   Reader.Cursor    src/reader/Lexer.cpp: the position, advance, skipWhitespaceAndComments, the
--                    symbol characters. A cursor is the bytes that are left of the source, with the
--                    position, the line and the column.
--   Reader.Number, Reader.Strings, Reader.Symbols  lexNumber; lexString and lexRegex;
--                    lexSymbolicValue and lexSymbolOrPunct.
--   Reader.Lexer     the class Lexer: next, peek, nextImpl_, with the state that they keep.
--   Reader.Forms     src/reader/Reader.h: the forms, the state of a reader, its errors, and what it
--                    calls of other parts.
--   Reader.Parts     src/reader/Reader.cpp: what is made of one token and of the forms inside brackets:
--                    symbols, `%` arguments, readFnLiteral, readVector, readMap, readSet, wrap.
--   Reader.Reads     readFromToken, readNextForm, readList, readOne, readAll, discards, EDN mode.
--   Reader.SyntaxQuote  syntaxQuote, with its table of generated symbols.
--   Json             src/runtime/Json.cpp: the values, and what the rest of the runtime does.
--   Json.Source, Json.Numbers, Json.Texts, Json.Parser  the classes Source, on a whole text, and
--                    Parser: the errors and their places; number and word; string and hex4; value,
--                    array, object and makeKey.
--   Json.Read        readJson, the options, parse-string and read-str.
--   Json.Strings, Json.Writer  the class Writer: string and namedText; write, map, sequence, keyText;
--                    generate-string and write-str.
--   Printer          src/runtime/Primitives.cpp: appendReadableString.
--   Bytecode.Opcodes src/runtime/Opcodes.h and opName.
--   Bytecode.Module  src/runtime/BytecodeModule.cpp and .h: emit, patchOperand, patchOp, addBlock,
--                    addArityGroup; the exceptions are errors of a result type.
--   Bytecode.Pool    the constant pool: addLong and the other six.
--   Bytecode.MaxStack  computeMaxStack.
--   Actor            src/runtime/ActorScheduler.h and ActorScheduler.cpp: send, popReady_, workerLoop
--                    and configuredWorkerCount, as steps of threads, one atomic access each.
--   Actor.Schedule   the threads of a process, in any order, as a step relation. An access takes
--                    effect at once, for all threads; but the release store that drops a claim may
--                    stay in its thread's buffer while the thread does the loads behind it, until
--                    the compare-and-exchange or the lock that follows. Other reorderings are not
--                    modelled. What `stranded` records is no state of the program: it says of an
--                    actor whether its claim was lost to such a thread and not won since.
--   Slots            src/runtime/CallerSlots.h and CallerSlots.cpp: the window of slots of a primitive
--                    call, the scope objects on it as a stack, and the submissions.
--   Dap              src/dap/DapTransport.cpp: readMessage and writeMessage.
--
-- Bytes, code points, positions and operands are native numbers. An instruction word is the operand
-- times 256 plus the opcode; emit rejects an operand of 2^24 or more, so that a word has 32 bits.
-- Positions in a source and counts of messages are not bounded here; the source's int and size_t
-- are not exceeded by texts and runs of a practical size.
--
-- Loops on fuel: the loops of the lexer have the number of the bytes that are left, and read a byte
-- each round. The binary search has the length of the table, and halves an interval. The loop over
-- header lines has one more than the length of the input. computeMaxStack takes the number of rounds
-- as an argument, since the source's loop need not end where a loop of the code grows the stack.
--
-- A form takes a byte of the source, and so does a JSON value: the reader has two units of fuel for
-- each byte and two more, for forms in forms, and a round for each byte and one more for those side
-- by side; the JSON parser has two for each byte and one more.
--
-- Maps and sets of the reader and of JSON are kept as the entries in the order of the walk over them;
-- which order that is, and how a later entry replaces one with an equal key, is a parameter; a JSON
-- object is made of all its entries at once, where the source adds them in groups of sixteen. So are
-- the equality of keys that the reader asks for, the resolver of symbols, the check of a pattern, and
-- in JSON the printer of other values, the texts of doubles and large integers, and the functions
-- that a caller gives for keys and values, which are taken to be pure. The reader's search for a
-- repeated key is written as that search; the source counts the keys of the map first, which
-- comes to the same where the map's equality is the one that is searched with. The number of the
-- next generated symbol is an atomic counter in the source and part of the reader's state here: no
-- other thread takes numbers in between.
--
-- Parameters: nlohmann/json is a type of values with its parser and its printer. What a handler of an
-- actor returns, and whether it throws, is arbitrary at each step. strtod, and the doubles, are kept
-- symbolically by the text that is read. Interning a symbol is an argument of addSymbol, and a
-- protoCore object in the constant pool is a number that identifies it.
--
-- Not modelled: the positions that the reader records for the debugger, the guards of the native
-- stack, JSON from and to streams, the compiler, the execution engine, the primitives on protoCore
-- objects, collections, lazy sequences, clojure.edn, regular expressions, the debugger's server,
-- input and output, and the parking of threads for the collector. Of the scheduler, the mirror of an
-- actor's value under its wrapper and the joins of shutdown are left out; of the slots, the values in
-- them and the change between the windows of nested calls; of a bytecode module, the setters of its
-- metadata.
pub mod Base
pub mod Utf8
pub mod Reader
pub mod Printer
pub mod Bytecode
pub mod Actor
pub mod Dap
pub mod Slots
pub mod Json
