-- ===== src/Lib.antt =====
-- The enclave of crust-sworker: a storage node that proves, inside SGX, how much space it has pledged
-- and which files it stores, and reports both to a chain, signed.
--
-- The parts and how they interact. All state is one object, the workload: the hashes of the pledged
-- space (SRD, "G" for one gigabyte) under each disk path, the list of checked files, the files that
-- were sealed but not checked yet, and some counters and flags. The main loop changes the space, validates the space
-- and the files, and makes work reports; calls from the application seal, confirm and delete files at
-- any time. A file has three statuses: the current one, the waiting one, which is that of the last report, and the
-- origin one, which is what the chain holds.
--
-- The files and what they model (paths from the root of the repository):
-- - Status: src/enclave/include/CrustStatus.h and Parameter.h, the codes and constants.
-- - Hex: src/enclave/utils/EUtils.cpp, bytes as hexadecimal text and back (hexstring_safe,
--   hex_string_to_bytes, unsigned_char_array_to_hex_string, char_to_int, unsigned_char_to_hex).
-- - Workload: src/enclave/workload/Workload.h and Workload.cpp, the state as a record, its setters, the
--   counter of validations, the statistics (set_wl_spec), try_report_work, handle_report_result;
--   restore_srd and restore_file (Workload.Restore).
-- - Storage: src/enclave/storage/Storage.cpp, storage_confirm_file, storage_delete_file,
--   storage_seal_file (Storage.SealFile) with the blocks and the tree (Storage.Seal), and
--   storage_unseal_file (Storage.Unseal).
-- - Report: src/enclave/report/Report.cpp, gen_work_report and gen_and_upload_work_report. Report.Signed has
--   the values, the signed bytes and the text, Report.Scan is
--   the loop over the files; a JSON item is a record.
-- - Srd: src/enclave/srd/Srd.cpp with src/enclave/utils/PathHelper.cpp: srd_change and set_srd_change
--   (Srd.Change), srd_increase (Srd.Increase, with an interface of the file system in
--   Srd.Increase.Disk), srd_decrease (Srd.Decrease), srd_update_metadata (Srd.Metadata).
-- - Validator: src/enclave/validator/Validator.cpp, validate_srd with srd_random_delete
--   (Validator.Space) and validate_meaningful_file (Validator.Meaningful).
-- - Merkle: src/enclave/utils/EUtils.cpp, the Merkle trees as JSON (validate_merkletree_json) and as the C
--   structure (Merkle.Native: deserialize_json_to_merkletree, validate_merkle_tree_c,
--   serialize_merkletree_to_json_string).
-- - Database: src/app/database/DataBase.cpp with the persist_* functions of src/app/ocalls/OCalls.cpp, over an
--   interface of LevelDB.
-- - Persistence: src/enclave/persistence/Persistence.cpp, the values of the enclave in that database, whole
--   or in pieces.
-- - Schedule: src/enclave/schedule/Schedule.cpp, the counters of the running calls (Schedule.Running has calls
--   that begin and end in any order), and src/enclave/utils/SafeLock.cpp.
-- - Enclave: src/enclave/Enclave.cpp, the calls into the enclave and a round of its main loop, composed of the
--   functions above.
-- - Identity: src/enclave/identity/Identity.cpp, the report height of id_gen_upgrade_data, the transfer in
--   id_restore_from_upgrade and id_cmp_chain_account_id; with store_large_data of EUtils.cpp.
-- - Crypto: SHA-256, ECDSA and sealing of the SGX library, parameters with the sizes of their results.
--   Crypto.Sample holds stand-ins to run the model with.
-- - Prelude: lists, texts, maps and sets over the native numbers, and the integers of C's long.
-- The modules named Tests hold runs on concrete inputs.
--
-- Conventions. A function that changes the workload takes it last and returns it. Each function is one
-- step, with its locks held; the lock calls are modelled in SafeLock and sched_check only. Where the code
-- lets go of a lock (sched_check, the upload of a report) the model applies a function `others` that stands for the other threads. Memory is a Boolean for
-- each allocation whose failure the code tests; texts made on the way have memory. A `size_t` or `uint32_t` whose
-- wrap-around the code can meet is written with it. A map is a list of entries in the order of the keys, a set of
-- indexes an increasing list.
--
-- Fuel. The choice of srd_decrease has the length of the longest vector plus 2, since each round looks
-- one index further from the back and a round beyond the longest vector ends the loop. The search for a leaf of a tree has one round for each index up to
-- the wanted one, and each round raises the index. A number has fewer digits than itself plus 1.
--
-- The loops that cut data into pieces have the length as fuel, since a piece has
-- a byte at least; the loop to the report height has the block height, since each round adds an era.
--
-- Not modelled: serialization of the workload and of the metadata, and the text of the
-- upgrade data; the ecalls of the identity and of sealing; the remote attestation, which is calls of SGX and
-- OpenSSL; the vendored JSON library, for which items are records, trees are data types and the piece information is a
-- parameter; and, but for the database, the application outside the enclave, which is input and output.
pub mod Prelude
pub mod Status
pub mod Hex
pub mod Workload
pub mod Storage
pub mod Crypto
pub mod Report
pub mod Srd
pub mod Validator
pub mod Database
pub mod Persistence
pub mod Schedule
pub mod Merkle
pub mod Enclave
pub mod Identity
