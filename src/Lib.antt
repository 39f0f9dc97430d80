-- ===== src/Lib.antt =====
-- A model of cry, a command line tool that encrypts files and derives cryptographic identities
-- from a passphrase.
--
-- The program's parts, and where they are modelled:
--
-- - src/error.rs: the error type. `Error` has it as `CryError`, and the outcomes of Rust calls as
--   `Result`: a value, an error, or a panic. A loop of the model that runs out of fuel is `stuck`.
-- - src/header.rs: the 73 bytes in front of an encrypted file, with a tag over the first 41. `Header`
--   has `Header`, `read`, `write` and their helpers; `Header/Fields`, `Header/Hkdf`, `Header/RoundTrip` and
--   `Header/Canonical` are its proofs.
-- - src/kdf.rs: `derive_key`, in `Kdf`.
-- - src/cipher.rs: `Cipher` has the chunk nonces, the associated data, one chunk's encryption and the
--   two streaming loops; `Io` has `read_chunk`, and the reader and writer that all streams use;
--   `Stream` has a whole stream of a file; `File` has `encrypt_file` and `decrypt_file` over the
--   world of files in `Fs`.
-- - src/crydna.rs: `CryDna` has the identities, signing and verifying, `CryDna/Export` what an
--   identity gives out, and `Hex` the hex texts.
-- - src/keygen.rs: `Keygen` has the files that `cry keygen` and `cry derive` write, in the world of
--   `Fs`, with the writing of an identity's private key in src/crydna.rs. `Utf8` is the test of
--   passphrases for UTF-8.
-- - src/ssh.rs: `Ssh` has `run_ssh` and the encoding of the key, `Ssh/Args` the arguments, `Ssh/Agent`
--   the temporary agent of Unix with `extract_var`, and `Ssh/KeyFile` the temporary key file of
--   Windows. `Process` has what they ask of the system, and `Str` the operations of `str` that they
--   use. `Ssh/Agent/Running` and `Ssh/KeyFile/Left` read off a log which agents run and which files
--   are left.
-- - src/bench.rs: `Bench` has the rounds and their figures, and `Bench/Run` the functions that draw
--   random bytes.
-- - src/main.rs: `Passphrase` has the two ways in which a passphrase is read, `Commands` what each
--   command does with its parsed arguments, and `Main` the choice of the command, `cry ssh` and the
--   exit status.
--
-- `Base` holds what the modules share: tests, lists and machine words. `Bytes` has the
-- big-endian encodings and `Fmt` the formatting of texts. `Crypto` is the interface to the
-- crates for encryption, hashing and signing: their operations are a parameter of every
-- definition that uses them, and what the proofs need of them is a record of laws. `Toy` is one
-- concrete instance of them, and `Examples` applies the theorems to concrete inputs.
--
-- A byte string is a list of natural numbers; that they are bytes is a hypothesis where it
-- matters. A text that is hashed, sliced, parsed or written is its UTF-8 bytes; the text of an
-- error message is its code points. An integer of the program is a natural number, with its
-- wrap-around written out. A reader is the sequence of what its calls will give: bytes that are
-- at hand, or an error. A writer is what it has taken and which coming calls fail. A mutable
-- reader or writer is passed on explicitly.
--
-- `Fs/Stands` shows which calls leave a file as it is, and `Fs/Keeps` has rules for actions
-- built of them, `Fs/Ends` is a logic of postconditions on success and on failure, `Fs/Fails`
-- one for actions that fail, and `Fs/Calm` has the calls where none fails. `File/Vault` is the
-- abstract store of plain and sealed files, `Stream/Steady` compares a stream with one that no
-- write fails in, and `File/Recovered` and `File/Guard` are for `Main/Recovered` and
-- `Main/Kept`. `Main/Agents` and `Main/Kept` have the states that runs of the program reach,
-- `Main/Outcome` is about the exit status, `Main/Calm` about runs where no call fails,
-- `Main/Size` about the length of the output, `Main/Verdict` about `cry verify`,
-- `Main/Reproduced` about two runs of `cry derive`, and `Main/Recovered` about an encryption and
-- a later decryption.
--
-- Each streaming loop has as fuel one more than the calls and bytes that its reader has in
-- store, and each of its rounds takes one of them. The loop of `read_chunk` has one round for
-- each event of its reader and one more.
--
-- Every call on a path may fail, by a list of faults in the world; `Path::exists` has a list of
-- its own, and gives false where its call of the system fails. A stream that fails leaves some
-- bytes in its file. The file that an open handle reads is taken as it is when the reading
-- starts; so decryption is as in the program where the temporary file is not the input. Paths
-- are texts without a final slash, and different texts are different files.
--
-- A session of src/ssh.rs passes on a log of what has been asked for: programs run, files
-- created, written and removed. The system is a function from the log to its next answer, so
-- that any behaviour of ssh, ssh-agent, icacls and the disk is covered. A value that is dropped
-- at the end of its scope is dropped however the scope ends. The two platforms are a parameter.
-- In src/bench.rs, `f64` and the clock are a parameter, and the sum of the rounds and the size
-- wrap as in a release build.
--
-- Not modelled: the parsing of the command line and all output; zeroing of memory and file
-- permissions other than those that icacls is asked for. A terminal gives one answer to each
-- prompt.
pub mod Base
pub mod Error
pub mod Bytes
pub mod Io
pub mod Crypto
pub mod Fmt
pub mod Header
pub mod Kdf
pub mod Cipher
pub mod Stream
pub mod Hex
pub mod CryDna
pub mod Fs
pub mod File
pub mod Str
pub mod Process
pub mod Ssh
pub mod Utf8
pub mod Passphrase
pub mod Keygen
pub mod Bench
pub mod Commands
pub mod Main
pub mod Toy
mod Examples
