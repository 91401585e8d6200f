-- ===== src/Lib.antt =====
-- The Firebird ODBC driver: a model of the parts that keep its own data.
--
-- The driver stands between an application, which calls the ODBC functions on handles, and the
-- client library of the database. The parts modelled here are the ones between both: the buffers
-- that carry blobs and texts, the conversions of data between the database's buffers and the
-- application's with the character sets they read, the scrolling of a cursor by rowsets, the day
-- numbers of dates, the diagnostics of handles, the list of bound columns, the part of a
-- connection in distributed transactions, and the connection string that opens one. A connection
-- is made by ConnectString, which decodes the password by Password. A statement fetches by Scroll,
-- over the rows that StaticCursor keeps, which hands the row to the conversions that
-- Convert/Dispatch chooses for its bound columns; those read the chars of wide texts by Multibyte.
--
-- Which file models what (paths from the root of the repository):
-- - Stream.antt and Stream/: IscDbc/Stream.cpp. A stream is its list of segments, `current` being
--   the last, with the fields of the class. Stream.antt has the writing members, Stream/Read.antt the
--   reading ones (`getSegment`, `getSegmentToBinary`, `getSegmentToHexStr`, `getSegmentLength`),
--   Stream/Lines.antt the one up to a delimiter, Stream/Compress.antt `compress` and `decompress`,
--   Stream/Pieces.antt `putSegment (blob)`.
-- - Blob.antt and Blob/: IscDbc/BinaryBlob.cpp, a stream with a reading offset, and
--   `convStrHexToBinary` of Stream.cpp.
-- - Transaction.antt and Transaction/: TransactionResourceAsync.cpp. A handler takes the state with
--   the calls and replies made so far, and an environment that says how its calls end.
--   Transaction/Enlist.antt is `OdbcConnection::enlistTransaction`.
-- - Diagnostics/: OdbcError.cpp (Tables, Record) and OdbcObject.cpp (Object, Text). Texts are lists
--   of chars without their terminator; pointers that may be NULL are Booleans beside the call.
-- - Dates.antt and Dates/: IscDbc/DateTime.cpp, and in Dates/Stamps.antt OdbcDateTime.cpp with
--   `decodeTime` of IscDbc/TimeStamp.cpp.
-- - Convert.antt and Convert/: OdbcConvert.cpp. Convert.antt has the transfers of texts and bytes in
--   pieces, Convert/Wide.antt those to wide chars, Convert/Digits.antt the decimal text of a whole
--   number, Convert/Days.antt the dates and times of time stamps, Convert/Dispatch.antt and
--   Convert/Dispatch/ the choice of the conversion for a pair of types (`getAdressFunction`, one
--   function for each switch of it) with `setHeadSqlVar` of input parameters. A conversion is a
--   function of the two descriptor records; a buffer is the list of what stands at its address.
-- - Multibyte.antt and Multibyte/: IscDbc/MultibyteConvert.cpp, the table of character sets,
--   Multibyte/Utf8.antt UTF-8 and Multibyte/Fss.antt the older UNICODE_FSS.
-- - Scroll.antt and Scroll/: `sqlFetchScrollCursorStatic` of OdbcStatement.cpp on the position that
--   IscDbc/IscResultSet.cpp keeps. A step answers the next cursor, the rows returned and the warning.
-- - Fetch.antt and Fetch/: `fetchData`, `sqlFetch`, `sqlFetchScroll` and `sqlExtendedFetch` of
--   OdbcStatement.cpp on a statement; what the database is going to answer is a list of its state.
--   The binding of columns is not modelled; the calls of `rebindColumn` are counted.
-- - Mlist.antt and Mlist/: IscDbc/Mlist.h, an array that a comparator keeps in order, and the list of
--   bound columns that OdbcDesc.h and OdbcStatement.cpp make of it.
-- - StaticCursor.antt and StaticCursor/: `CDataStaticCursor` of IscDbc/Sqlda.cpp. The blocks are a
--   list of lists of rows, and the reverse iterator is the number of rows before it and its own.
--   Filling and reading a cursor, as IscDbc/IscResultSet.cpp does, is StaticCursor/Refines.antt.
-- - Password.antt and Password/: SecurityPassword.h. `decode` answers what it does to the buffer
--   of its caller.
-- - ConnectString.antt and ConnectString/: `OdbcConnection::sqlDriverConnect` of
--   OdbcConnection.cpp. ConnectString.antt reads the attributes of a string,
--   ConnectString/Settings.antt has the fields of the connection and the branch of each keyword of
--   SetupAttributes.h, ConnectString/Connect.antt `expandConnectParameters`, the returned string
--   and the whole call. ConnectString/Calls.antt composes a call with the reading of its string.
-- - Base.antt and Base/: names, Boolean tests, lists and integers that all parts share.
--
-- Bytes, shorts and chars are numbers; what a C type cuts off is written as a remainder. Memory is
-- not modelled: allocation succeeds, and the bytes that a stream holds without a copy stay as they
-- are; that a stream stored a byte behind a block is a flag of it. A read in front of a segment, a call through NULL and a copy of a negative size are values of
-- their own. A `wchar_t` has 16 bits. The function that turns the chars of a column into wide chars
-- is a parameter of the conversions, as the descriptor holds it.
--
-- Fuel stands for the rounds of loops: `compress` has one for each short of the record, the
-- bisection of `MList` one more than there are items, `putLongSegment` one more than there are
-- bytes, and `putSegment (blob)` is given its fuel. The loops of UTF-8 and UNICODE_FSS have a round for
-- each byte or unit, and read one in each; the loop over a connection string has one for each char.
-- The digits of a number have 20 places, enough for 64 bits. A client that fetches a text
-- in pieces or the rows of a cursor is given its fuel, and the theorems say how much is enough.
-- The other loops are recursion on a list, or on the size of a rowset.
--
-- Not modelled: reading of wide text from a blob, text to dates, `getTimeString`, the conversions
-- that Convert/Dispatch names without a definition here, the binding and execution of statements,
-- descriptors, SQLBrowseConnect and the saving of a data source; the calls of the database client,
-- the dialogues and the catalogue queries are no logic of their own. What the transaction manager and
-- the connection answer, what the data sources hold, and whether a connection is made are parameters
-- of the calls.
mod Base
pub mod Stream
pub mod Blob
pub mod Transaction
pub mod Diagnostics
pub mod Dates
pub mod Mlist
pub mod Multibyte
pub mod Convert
pub mod Scroll
pub mod Fetch
pub mod StaticCursor
pub mod Password
pub mod ConnectString
