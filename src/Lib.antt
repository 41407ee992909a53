-- ===== src/Lib.antt =====
-- A model of qdl, the Qualcomm download tool, with proofs about it.
--
-- Parts of the program and the files that model them:
--   * src/io.c and the pushback fields of include/qdl.h: Io. `qdl_read` serves the bytes that
--     `qdl_push_back` stashed before it reads from a transport (USB, COM port, simulation).
--   * src/vip.c and src/vip.h: Vip. A dry run hashes every frame (Vip.Generator.Chunks) and splits
--     the digests into a signed table and chained tables, each ending in the hash of the next
--     (Vip.Generator). A real run sends these tables ahead of the frames that they cover
--     (Vip.Transfer).
--   * src/sahara.c: Sahara. A device in its boot loader asks for parts of images (Sahara.Handlers)
--     or offers its memory for a dump (Sahara.Dump and Sahara.Ramdump, with the name patterns of
--     Sahara.Filter), of whose files Sahara.Minidump makes an ELF file;
--     Sahara.Run is the loop of `sahara_run`, Sahara.Reset is `sahara_device_reset`, and
--     Sahara.Command asks the chip for its identity. Sahara.Invariant says what a predicate on the
--     host needs to survive a run, and the Keeps files that it does.
--   * src/sparse.c, and program_load_sparse of src/program.c: Sparse. The headers of a sparse image
--     (Sparse) and the operations that its chunks become (Sparse.Load). A file is one on the disk;
--     `strtoul` on the text of the attribute and the allocation of an operation are arguments.
--   * utf16le_to_utf8 of src/gpt.c: Gpt. The names of partitions in a partition table are UTF-16.
--   * src/file.c: File. A file on the disk or in a zip archive, read exactly or to its end.
--   * src/firehose.c, src/firehose.h, and ufs_provisioning_execute of src/ufs.c: Firehose. Once the boot
--     loader runs a programmer, the host sends it XML documents and raw data. Firehose.Receive is
--     `firehose_read` (with the parsers of Firehose.Message), Firehose.Send is `firehose_write` with the
--     VIP tables that go ahead of it, Firehose.Stream the payload of a program request and the digest it
--     is compared with, Firehose.Program and Firehose.Flash the writing of a region from a file,
--     Firehose.Fetch the reading of sectors, Firehose.Control the operations that are one exchange,
--     Firehose.Configure the handshake, Firehose.Provision UFS provisioning, Firehose.Block the writes
--     of the nbdkit plugin, and Firehose.Run the loop over the operations. Firehose.DryRun joins the
--     payload to the generator of Vip.
--   * src/json.c and src/json.h: Json. Json.Token reads strings, numbers and keywords, Json.Parse is the
--     recursive descent; Json.Print is a printer that the parser is compared with. `strtod` is an
--     argument, and so is the type of its results.
--   * src/util.c: Util. The storage addresses and file selectors of the command line; `strtol` and
--     `strtoul` are written out, for a `long` of 64 bits.
--   * src/pathbuf.c: Pathbuf. A path is built in an array of PATH_MAX (4096) bytes. Pathbuf.Join says
--     what path a component makes of another one.
-- Base holds what the parts share. In each part the definitions stand in the file named for it and
-- the proofs in the files below; Tests has runs and instances of the theorems.
--
-- How the code is read:
--   * bytes and machine integers are natural numbers; a `size_t` sum that could wrap is written
--     with its `% 2 ^ 64`.
--   * what the program does not implement is an argument: the transports, files, `malloc`, and
--     the SHA-256 of src/sha2.c, a copy of OpenBSD's, of which only the streaming law is used.
--     Library calls that may fail are asked of an oracle, so a theorem speaks of every pattern of
--     failures.
--   * diagnostics (`ux_err` and the like) are left out.
--
-- Fuel: `copy_loop` copies 512 bytes a round and gets `left / 512 + 2` rounds; `write_chained`
-- gets one round for each chained table and one more. The theorem on `create_chained_tables`
-- says that the rounds suffice, since a run out of rounds would be a failure with no failing
-- call.
--
-- In Sahara the device is a list of what its reads return, which ends in errors. `run_loop` and
-- the loops of the dump take a read in each round, so they get one round more than there are
-- reads. `write_chunk` and the copy of a file get a round for each byte, and `write_zeroes` one
-- for each 4096 bytes and one more. A file that is opened for reading gives its bytes by an
-- argument, which sees the files written so far. A read shorter than a header leaves old bytes
-- in the buffer of `sahara_run`, so the buffer is an argument.
--
-- In Firehose the transport is a list of what happens on it, with the clock, and a list of what
-- its writes return; behind both the device is gone. `firehose_read` gets a round for each byte
-- and event that is left, `firehose_write` one for each write. The loops over sectors get a
-- round for each sector. A loop that is still running behind its rounds is `none`. For the
-- handshake the number of rounds is an argument. Documents are trees, which libxml2 reads and
-- prints as an argument of the model; the text of a number in an attribute is left to `printf`.
-- `gpt_resolve_deferrals` is an argument of the run.
--
-- The parser of JSON gets three units of fuel for each byte and two more, and the theorem on
-- `json_parse_value` says that it ends with them.
--
-- Not modelled: the reports of Firehose for the user and its storage size query, the position in
-- the file of a VIP table (a table that is sent again gives its bytes again), the XML loaders,
-- the release of JSON values, the rest of the partition table reader, the USB and QUD
-- transports, the simulation and the user interface.
pub mod Base
pub mod Io
pub mod File
pub mod Vip
pub mod Sahara
pub mod Sparse
pub mod Gpt
pub mod Json
pub mod Util
pub mod Pathbuf
pub mod Firehose
