-- ===== src/Lib.antt =====
-- A model of the Tamga C SDK: what src/checkout does with a licence file or a machine file, what
-- src/http does with a request and a response, and the parts of src/util and src/tamga_mem.c that both
-- stand on.
--
-- The parts, from the bottom:
--   * Memory: src/tamga_mem.c. `checked_add` and `checked_mul` on a `size_t` of 64 bits; Memory/Exec
--     holds the monad of an action that may allocate and may fail, over an allocator that grants or
--     refuses the n-th request of a run; Memory/Growth holds the loop that doubles a capacity, which
--     src/util/buf.c and src/checkout/key_set.c both write.
--   * Hex, Base64: src/util/hex.c and src/util/base64.c, on lists of bytes.
--   * Buf: src/util/buf.c, the growable buffer whose first failure sticks.
--   * Json: src/util/json.c, the document tree and its readers; Clone is tamga_json_clone, Build the two
--     functions that add to a container. Json/Parse is src/util/json_parse.c: Reader holds the parser's
--     state and failures, Utf8, Strings and Numbers read the tokens, Parse itself reads values.
--     Json/Write is src/util/json_write.c: Sort is the order of an object's keys, Double the writing of
--     a double. Strings, Double/Text and Printed are a reference printer without a buffer, which has its
--     own table of escapes and its own layout of a double; Canonical is what the order of the members
--     does to the text.
--   * Checkout: src/checkout. Pem is pem.c, Cert is cert.c, Claims is claims.c, KeySet is key_set.c
--     (Keys decodes and names keys, Store adds one, Merge adds a document of them, Select finds the key
--     that a file names and labels a failure), LicenseFile is license_file.c and MachineFile is
--     machine_file.c. Payload holds the steps behind the signature's verdict, which the last two files
--     write out once each.
--   * Uuid: src/util/uuid.c. Groups is the hyphenated text, Spellings the four texts that are read,
--     Normal the one that is written.
--   * Fingerprint: src/util/fingerprint.c, the canonical string of a machine's components; Lexical is
--     its comparison, Labels its search for a label that is there twice.
--   * Http: src/http/client.c and src/http/transport.c, on the records of their headers. Text is what is
--     written into a request (API version, header values, percent-encoding), Retry which requests are
--     repeated and when, Transport the response that a transport fills in, Config the life of a client,
--     Credentials the Authorization header and the URL, Answer the response that the caller gets and the
--     error codes of a refusal, Send the call with its loop, Read the readers of a response.
--
-- How C is read. A pointer that may be NULL is an `Option`; a status with out-parameters is a
-- `Result`, whose error is the TamgaErrorCode and not the message; a call that changes a struct
-- returns it, on its error paths too. Freeing and zeroing memory is not modelled. A span of bytes is a
-- list of numbers, and a function that C ends at a NUL takes `c_string` of it. An int64_t is an
-- integer: the one subtraction on it, in Checkout/Claims, is made only where it cannot wrap.
--
-- Parameters. src/crypto and tamga_json_parse are the record `Primitives` (Checkout/Primitives), so
-- the theorems hold for every verifier, cipher, digest and parser; Checkout/Parser puts the modelled
-- parser in. The compiler's arithmetic on doubles is the record `Doubles` (Json), strtoll and strtod are
-- the record `Conversions` (Json/Parse/Numbers), and qsort is any function that sorts (`Sorts` in
-- Fingerprint/Identity).
--
-- The C library's formatting is the record `Formats` (Json/Write/Double). The transport, the process id
-- and the strtoll of Retry-After are parameters of Http/Send.
--
-- Fuel. `double_until` has 65 rounds from a capacity of at least 1, the loop of a string token one round
-- for each byte that is left and one more, and the parser three calls for each byte and three more, one of a value,
-- one of its container and one of the container's loop; `double_until-ne-stuck` and
-- `json_parse-ne-exhausted` are about these bounds. The loop of Http/Send has one round more than the
-- client has retries, and `attempts-Bounded` is about that.
-- The merge sort has a round for each pair of runs and for each width, at most one for each key, and
-- `passes_sort` is about that.
--
-- Not modelled: of src/http the endpoints and the two transports, src/models, src/tamga_api.c, src/proof.c, src/crypto, and of src/util the
-- times.
pub mod Base64
pub mod Buf
pub mod Checkout
pub mod Errors
pub mod Fingerprint
pub mod Hex
pub mod Http
pub mod Json
pub mod Memory
pub mod Prelude
pub mod Uuid
