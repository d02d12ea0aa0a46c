-- ===== src/Lib.antt =====
-- Verification of objconv, a Go library that converts between Go values and the formats
-- MessagePack, CBOR, JSON, RESP and YAML. An encoder walks a value and calls the methods of an
-- emitter, which writes one format to an io.Writer; a parser reads one format from an io.Reader
-- and announces the type of the next item, and a decoder calls the method for that type. This
-- library models the formats but for YAML, the encoder and the decoder on values without structs, their
-- algorithms for arrays, maps and streams, the emitter and the parser that work in memory, and what
-- they use of objutil.
--
-- What stands for what:
--   Prelude, and the files below it: Boolean tests, lists, signed integers, big-endian bytes and
--     bit masks over the native numbers.
--   Go: outcomes and errors (Go.Outcome), byte slices with their capacity (Go.Slice), io.Reader,
--     io.Writer and io.ReadFull (Go.Io), float64 patterns (Go.Float), instants (Go.Time), and parts
--     of strconv, strings, unicode/utf8, unicode/utf16 and encoding/base64.
--   Buffer: the fields r, i, j, b of three parsers with `fill` and `peek` (msgpack/parse.go,
--     cbor/parse.go, json/parse.go); Buffer.Laws relates them to the stream of bytes.
--   Objutil.Limits, Objutil.Int, Objutil.Duration, Objutil.Tag: limits.go, int.go, duration.go and
--     tag.go of objutil. Int.Reference and Int.Laws: ParseInt and ParseUintHex against a
--     reference; Int.Documented: ParseInt against its comment; Int.Print: what strconv
--     prints is read back. Duration.Laws: the length of a duration's text.
--   Types: Type of value.go.
--   Emit and Parse: the interfaces Emitter and Parser of emit.go and parse.go, and Discard.
--   Value: the values of Go that are encoded, and their natural form. Emitter and Parser: ValueEmitter
--     and ValueParser of value.go. Emitter.Laws: its stack and maps; Emitter.Encode: Encode over it;
--     Parser.Walk and Shows: what it shows a decoder; RoundTrip: both from end to end.
--   Encode: Encoder.EncodeArray of encode.go over the methods of an emitter. Map: EncodeArray and
--     EncodeMap for an encoder inside a map. Values: Encode and the functions on reflected values.
--     Stream: StreamEncoder; its Laws are about any sequence of its calls, its Refine about
--     EncodeArray.
--   Decode: Decoder.DecodeArray and DecodeMap of decode.go over the methods of a parser. Stream:
--     StreamDecoder; its Laws are about any sequence of its calls. Scalars and Texts: the decoders
--     of one value; Scalars.Laws: their bounds. Collections: those of slices, arrays and maps; its
--     Laws are about the loop and the slice that grows, its Arrays about arrays. Values:
--     decodeInterface; Presents says what a parser that presents a value answers, Loops and Laws
--     that the value is decoded, and Flaws is about a key that no map can hold.
--   Msgpack.Tag: msgpack/msgpack.go.
--   Msgpack.Emit: Emitter of msgpack/emit.go, with EmitX as emit_x. What a method puts together in
--     its scratch array is a function of its own (int_bytes, string_header, time_bytes). Its
--     writers are the one given to it and the buffers of arrays of unknown length.
--     Laws: what a write changes. Arrays and Counted: EncodeArray over this emitter.
--   Msgpack.Parse: Parser of msgpack/parse.go, with ParseX as parse_x. Laws: the steps of a method
--     against the stream; Numbers, Scalars, Headers, Text and Instants: what the emitter wrote is
--     read back.
--   Msgpack.Values: the two as interfaces, and the format of a whole value. Format and Emit: Encode
--     writes it; Texted, Single and Parse: the parser presents it; Codec: the way from a value to
--     bytes and back.
--   Cbor.Major: cbor/cbor.go.  Cbor.Emit: Emitter of cbor/emit.go. Arrays: EncodeArray over it.
--   Cbor.State and Cbor.Parse: Parser of cbor/parse.go; parseUint is parse_head and parseBytes is
--     parse_chunks. Laws and Numbers: heads and integers read back; Load and Text: strings;
--     Simple: nil, booleans and floats; Arrays: lengths and breaks; Flaws: inputs read wrongly.
--   Json.Emit: Emitter of json/emit.go. Laws: its strings; Arrays: EncodeArray over it; Pretty: its
--     PrettyEmitter.  Json.Parse: Parser of json/parse.go. Laws: its steps against the stream;
--     Escapes, Window and Strings: what EmitString wrote is read back.
--   Resp.Line: the ends of lines in resp/emit.go and resp/parse.go.  Resp.Emit: Emitter of
--     resp/emit.go; Client: its ClientEmitter.  Resp.Parse: Parser of resp/parse.go. Laws: its lines
--     against the stream; Lines: values written as a line are read back; Flaws: a panic.
--   Samples: a reader that answers in small pieces, a writer into a list, and runs on them.
--
-- A method is a function from a state to an outcome and a state (Go.Outcome.M): a value, an error,
-- a panic, or `stuck` where a loop of the model has no fuel left.
-- An int is a signed integer of 64 bits, a byte a number below 256; a conversion to w bits is
-- written out as `% 2 ^ w`. A slice that shares a buffer until the next call is a value. Pools hand
-- out reset objects.
--
-- Fuel: `peek n` has n + 1 rounds, since each `fill` brings a byte or ends with an error; ReadFull
-- of k bytes has k rounds, since Read stores a byte while there are some; the loop of EmitString
-- has one round more than the string has bytes; the loop of CBOR's ParseType has two rounds, since
-- the second tag ends it; a denormal half is shifted at most ten times; the loop over the chunks of
-- a CBOR string has a round for each byte that is left. The loops of json/parse.go and resp/parse.go
-- over the stream have a round for each byte that is left, and one or two more; the digits of a number
-- have as many rounds as its value; indent has a round for each space. The loops of DecodeArray and
-- DecodeMap take their fuel as an argument. The fuel of decodeInterface bounds its depth and the rounds
-- of each loop; the number of parts of the value (size) is enough.
--
-- Parameters: readers and writers with the documented behaviour of io.Reader and io.Writer, float
-- arithmetic (Go.Float.Floats), formatting and parsing of floats (Go.Strconv.FloatFormat), parsing
-- of integers (IntFormat), time.RFC3339Nano (Go.Time.TimeFormat), durations read by package time
-- (DurationFormat), base64 (Go.Base64.Base64), Go's comparison of keys (Value.Emitter.Keys), and the
-- texts that package reflect has for values (Value.Parser.Reflection).
--
-- Not modelled: callbacks of EncodeArray and EncodeMap that write a value and return End at once; in
-- the encoder, the decoder and ValueParser, what depends on reflected types of
-- the caller (structs and their fields, named types, pointers to fill, sorted keys, MapType,
-- adapters, marshalers, ValueEncoder and ValueDecoder), and the tests for empty and zero values in
-- objutil, whose behaviour belongs to package reflect; YAML, which hands reflected values to a
-- library; the class of a redis error; the registries of codecs, the adapters, the command line
-- tool and the vendored libraries.
pub mod Prelude
pub mod Go
pub mod Json
pub mod Resp
pub mod Decode
pub mod Parse
pub mod Buffer
pub mod Objutil
pub mod Types
pub mod Encode
pub mod Emit
pub mod Value
pub mod Msgpack
pub mod Cbor
pub mod Samples
