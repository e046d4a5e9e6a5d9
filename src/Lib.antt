-- ===== src/Lib.antt =====
-- A server node of a blockchain that agrees on blocks by a vote in the style of Algorand, drawn by cryptographic
-- sortition, inside a replication protocol of the PBFT family. The configuration is the shipped one (Algorand/config.h):
-- ALGORAND, PBFT, batches, an execution thread and batched responses; no RBFT, DBFT, Zyzzyva, view changes or USE_CRYPTO.
--
-- The parts, and the files that model them:
--   * Prelude: numbers, integers, texts, association lists, Option as a monad with `assert`, counting.
--   * Blockchain: Algorand/blockchain. Double holds the `double` arithmetic as a parameter with the laws used of it,
--     Binomial models nCr, binary_distribution and algorand_sum, Vrf models vrf_rsa_util.cpp over OpenSSL as a parameter,
--     Algorand the class with init, getkey, reset and execute, Sortition models sortition and verify, Votes countVotes.
--   * Transport.Messages: the message classes of Algorand/transport/message.h. Transport.Wire: get_size, copy_to_buf and
--     copy_from_buf of Algorand/transport/message.cpp, over a buffer of bytes; the representation of the basic types is a
--     parameter. Header is the part of the base class, Indexed (prepare, commit and execute messages), Checkpoint, Keys,
--     Response, Query, Batch, Pre and Requests (BatchRequests) are the classes, Nested the queries inside another message,
--     Dispatch chooses the class (create_message of a buffer, create_messages).
--   * System: Algorand/system and the message operations of Algorand/transport/message.cpp that the handlers call. Node is
--     the state of a server (globals, logs and queues); Send makes and sends messages; Votes checks and counts the vote of
--     a message; ClientBatch (process_client_batch) makes a batch at the primary, Batch (process_batch) sends or receives
--     it, Prepare (process_pbft_prep_msg, prepared), Commit (process_pbft_commit_msg, committed_local), Execute
--     (process_execute_msg) and Checkpoint (process_pbft_chkpt_msg) are the further phases, and Worker (process,
--     process_key_exchange, send_key) chooses the handler and exchanges the keys. Responses is
--     a client's log of responses (ClientResponseMessage::validate). Execute.Machine is the machine that executions in
--     sequence implement. Answers is the count of responses of a transaction (txn.cpp: received_response).
--     ViewChange is the change of the primary with VIEW_CHANGES: PBFTViewChangeMsg (init, validate, addAndValidate) with
--     Made and Evidence, NewView (PBFTNewViewMsg) and Handlers (process_pbft_view_change_msg, process_pbft_new_view_msg,
--     reset, the start of a change in run, the redirection in process_client_batch) with Log and Reset.
--   * Tests: a concrete instance of every parameter and the theorems at work on it.
--
-- How they interact: a handler takes a message and the node and returns the node. Batches and prepare messages carry a
-- data package of the vote, which the handlers give to verify and countVotes; sending a batch or a prepare message draws
-- sortition; the end of the commit phase resets the vote. A message to other nodes is an entry of `sent`, one for the
-- execution thread or for the worker itself an entry of `work`.
--
-- Conventions. `none` is a failed assert, undefined behaviour or a loop without end, as the file says; integers of
-- 64 and 32 bits wrap where the source can reach the bound; `int` is unbounded, but a stake that is passed as an
-- `int` is converted to 32 bits. A comparison with NaN is false, and NaN stays NaN, among the laws assumed of
-- `double`. The selection loop of sortition runs on fuel: the rounds up to the first sum above the hash are enough.
-- Every other loop is structural.
--
-- Not modelled: threads, queues, clocks, statistics and memory management; the messages of the transaction protocols
-- that the code inherits; the deep copies that the handlers make through a buffer, which are the message itself there; the
-- other protocols; the stand-alone programs under VRF and doc. The shipped config.h
-- switches view changes off; the other modules describe that build, and ViewChange has its own form of process_batch. The
-- guards that VIEW_CHANGES adds to the handlers of prepare and commit messages are left out. So is the capacity of
-- the arrays in a response, whose class is not in the repository.
-- Parameters stand for OpenSSL, `double`, picosha2, std::to_string, the benchmark's requests, run_txn and the release of
-- transaction managers, whose code is not in the repository.
pub mod Prelude
pub mod Blockchain
pub mod Transport
pub mod System
pub mod Tests
