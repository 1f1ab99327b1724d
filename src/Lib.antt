-- ===== src/Lib.antt =====
-- Online training of click models by FTRL-proximal over ps-lite: Kafka messages become samples,
-- each application's learner trains on batches of them, and the parameter server holds the weights.
--
-- How the parts work together. `Parser::Process` (src/io/parser.cpp) parses a message, labels its
-- sample once for each learner (`CheckImp`, `CheckLabel`) and buffers it; at a hundred samples it
-- calls `GetData` of every learner. `Learner::update` (src/core/learner.cpp) pulls the weights of
-- the batch's features, scores the samples, adds up the gradient and pushes it;
-- `Ftrl::handle_request` (src/optimizer/ftrl.cpp) answers the pull and runs the optimiser on the
-- push. `main` (src/main.cpp) makes the servers and the learners, and `SampleKafka` gives two Kafka
-- consumers one parser, by `CALLBACK_SHELL`.
--
-- Files, and the code that they follow:
--   Ftrl            src/optimizer/ftrl.h, ftrl.cpp: the class, one function for each method, a loop
--                   body with `_key` at its name; `Coord`, `Reset`, `History` and `Weights` hold
--                   proofs
--   Learner         src/core/learner.h, learner.cpp: GetData (get_data), update, predict,
--                   caculate_gradient, validate (log_batch); `Labels` has CheckLabel and CheckImp with
--                   src/core/x_learner.cpp, and `Exclusive` the proofs about them; `Keys`, `Gradient`,
--                   `Round`, `Train` and `Intake` hold proofs; `Model` has LoadModel and the
--                   requests of the constructor, `Requests` and `Boot` a worker that starts against a
--                   server, and `Handshake` the semaphores of GetData and Start as steps of
--                   two threads
--   Parser          src/io/parser.h, parser.cpp: the state; `Crc` crc64, `Feature` extract_feature,
--                   `Message` parse_sample_0 and parse_sample_1, `Buffer` Process, `Threads`
--                   Process as steps of its two threads, with proofs in `Bounds`, `Apart` and
--                   `Races`; `Buffer.Queues` its abstract view; `Message.Frame`, `Buffer.Bounds`,
--                   `Buffer.Batch`, `Buffer.Run`, `Buffer.Fit`, `Message.Small`, `Message.Repeat`
--                   and `Buffer.Repeat` hold proofs; `Buffer.Accept` and `Buffer.Trained` follow a
--                   batch from the parser to the server
--   Verdict         the steps of the message parsers; `Frame`: what they leave alone, `Blind`:
--                   verdicts that do not depend on the state, `Yields`: what holds of their value
--   Kafka           src/io/message_kafka.h, message_kafka.cpp: Init, Stop and Process, of which
--                   `hour_loop` is the inner loop and `round` one turn of the outer, and `Rounds` has
--                   the outer; `Hour`, `Offsets`, `Stops` and `Ends` hold proofs
--   SampleKafka     src/io/sample_kafka.h, sample_kafka.cpp; `Partitions` and `Feed` hold proofs,
--                   and `Run` follows a thread from its messages to the server
--   Main            src/main.cpp, with the constructor and StartFtrl of src/core/ps_server.cpp;
--                   `Settings` and `Learners` hold proofs
--   Tools           tools/learner.h, learner.cpp: the class Learner of the earlier program, as
--                   `Merger`; `Feature` has extract_feature, `Message` the two parsers, `Merge` the
--                   operation, `Counters` the counters of tools/loginfo.h, `Options` the options of
--                   tools/main.cpp; `Message.Frame`, `Merge.Queue` and `Merge.Run` hold proofs
--   Redis           src/utils/Redis.h; `Pipeline` has mdel and mset_expire, `Linked` and `Request`
--                   hold proofs
--   Logger          src/utils/logger.h, logger.cpp, by its calls of log4cpp; `Calls` holds proofs
--   PsServer        src/core/ps_server.cpp: the model file of SyncToRedis, `Sync` its rounds; `Order`,
--                   `Saved` and `Appended` hold proofs
--   StringUtil      src/utils/string_util.h; `Trim`, `Split` and `Find` hold proofs
--   RecordLog       src/utils/loginfo.h
--   Sample          src/io/sample.h; Condition: the map from field names to texts of parser.cpp
--   Floats, Clock, Bytes: what stands for `float`, for `strftime` and `localtime`, for `std::string`
--   Prelude         shared tests, lists, maps and integers; Examples: runs of the model
--
-- Correspondence. State is passed explicitly, and an access past the end of a vector, or through a
-- null pointer, is `none` or `out_of_bounds`. `float` is a type with the operations of `Floats` and
-- no laws, so the order of additions is kept; hash maps are association lists; `size_t` and
-- `uint64_t` wrap where the code can make them. Every loop is a structural recursion, but for the
-- outer loop of the consumer, `process_topic`, which runs on fuel: two more than the turns in front
-- of the exit flag are enough. A loop that waits for another party runs over the list of what that
-- party gives, and stands where the list ends. The sizes are the code's: 10000 samples in a learner
-- and in `sample_0`, 3000 in `sample_1`, of which 2000 are used, 1000 features in a sample,
-- 10000000 features in a round, 100 samples in a batch.
--
-- The earlier program has the same sizes, but that its samples have the room that common.h gives
-- them (`mem_size`).
--
-- Parameters: atoi, atof and Boost's casts (`Parsers`), the printed keys and weights (`Printer`),
-- the table of util.cpp, `strftime`, the local time and the clock (`Env`), and the servers' answer
-- to a pull (`update`). ps-lite's requests are the record `Request`; a worker is taken to face one
-- server, in `Learner.Train` and `Learner.Boot`. The polls of librdkafka are the list of `Turn`s,
-- the options of `getopt` a list, the INI reader is `Ini`, and what hiredis returns is `Dial`,
-- `Answer` and `Got`.
--
-- Not modelled: the threads of src/core/ps_server.cpp and the start of those of
-- src/io/sample_kafka.cpp; what the two threads in one parser do to its log and its maps; what the
-- calls of ps-lite, librdkafka and log4cpp configure; src/optimizer/ftrl_fm.cpp, which does not
-- compile; the texts that are printed and logged; memory that is freed or leaks, but for the
-- logger; the threads of tools/main.cpp; tools/ftrl.cpp, a copy of the optimiser; in the earlier
-- program the wait of its `Merge` for workers whose class is not in the repository; the INI reader
-- and deps/, which are copies of other projects.
pub mod Prelude
pub mod Floats
pub mod Bytes
pub mod Clock
pub mod Ftrl
pub mod StringUtil
pub mod RecordLog
pub mod Sample
pub mod Condition
pub mod Learner
pub mod Verdict
pub mod Parser
pub mod Tools
pub mod Kafka
pub mod SampleKafka
pub mod PsServer
pub mod Logger
pub mod Redis
pub mod Main
pub mod Examples
