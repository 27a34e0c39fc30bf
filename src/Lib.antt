-- ===== src/Lib.antt =====
-- VoxGuard: a verification of the Python services that decide.
--
-- The program is a set of services around a voice network. A switch sends each call to the fraud
-- engine behind a circuit breaker and reports its health; the SIP processor registers calls, finds
-- masking attacks and keeps the alerts that analysts work on; the ML pipeline keeps a registry of
-- models and moves traffic from a champion to a challenger. The parts meet at few places: the
-- deployment manager owns a registry and a splitter, the detection service creates calls and alerts
-- and reaches its stores through interfaces, old rows go to cold storage, and the health checker
-- reads the breakers' reports.
--
-- Base has the shared names, Boolean tests, lists, integers over the native numbers and
-- dictionaries with text keys in insertion order.
--
-- Breaker is services/voice-switch/circuit_breaker.py. State has the records, Ops the transitions
-- (`_transition_to`, `_on_success`, `_on_failure`, `_check_and_transition_from_open`, `reset`),
-- Call the method `call`, cut at its one await into `start` and `finish`, Registry the table of
-- breakers. Tasks has the interleavings of any number of calls as a step relation, Invariant,
-- Slots, Sequence and Report the laws. The number of trial calls is an integer, as it can fall
-- below zero.
--
-- Health is services/voice-switch/health_check.py: Status the overall status, Checks the three
-- component checks with the replies of the database, of Redis and of the engine as arguments,
-- Endpoints the report and the HTTP codes, Overall the laws of the overall status.
--
-- Ml.Registry is services/ml-pipeline/model_registry.py: State the index and the directories, Ops
-- and Maintenance the methods, where none stands for an exception and the state is as it was left
-- by then. Writes, Soundness, Champion and Removal have the laws. Ml.Splitter is
-- services/ml-pipeline/ab_testing/traffic_splitter.py, the random numbers as arguments.
-- Ml.Deployment is services/ml-pipeline/ab_testing/deployment_manager.py: Evaluation the metrics
-- and the recommendation, Manager the phases, Decision and Frozen the laws. A method that the
-- source calls on an object is looked up in the list of the attributes that its class defines.
-- Ml.Collector is services/ml-pipeline/data_collector.py: Frames the operations of pandas on rows,
-- Samples and Ops the collection from the merged rows on, Cleaning and Balance its laws.
-- Ml.Retraining is services/ml-pipeline/retraining_orchestrator.py over the collector and the
-- registry: Calls says which arguments Python accepts for a method, Steps and Runs are the methods,
-- Failure and Schedule the laws. Ml.Server is services/ml-pipeline/inference_server.py, Counts the
-- laws of its counters.
--
-- Domain is services/sip-processor/app/domain: Msisdn and Values the value objects, Call and Alert
-- the entities, Alert.Service and Detection.Service the services, Detection.Ports the interfaces to
-- the repositories, the cache and the time-series store. Outcome has what a registered call leads
-- to.
--
-- Cdr is services/sip-processor/app/cdr: Processor has models.py and processor.py, with the calls
-- of Redis and PostgreSQL as a list of requests, Lifecycle the laws over any sequence of events.
-- Metrics.Counters is metrics.py over an interface of Redis, Metrics.Window what its window counts.
--
-- Archive is services/data-archival: Storage has compression.py and storage_client.py, Service the
-- methods `archive_table` and `restore_archive` of archival_service.py with what they call, Run
-- what a successful run has done, Insertion what the insertion of restored rows does to a table,
-- Loss and Restore what an archive loses and keeps. The SQL statements, S3 and the codecs are
-- interfaces, with what their documentation says of them as named hypotheses of the theorems.
--
-- Sentinel is services/sip-processor/app/sentinel. Records has the call record of models.py with
-- its checks, Parser parser.py, Ingest the way of a file from its rows to the table: Dedupe and
-- Database the methods, Endpoint the handler `ingest_cdr` of routes.py, Accounts its laws. Cache is
-- the cache of performance.py and the decorator over it: Defs the methods, Refinement the map with
-- expiring values that they implement, Calls the laws of the decorator.
--
-- Inference is services/sip-processor/app/inference: Features, Model and Engine are its files, with
-- xgboost as a parameter, Rules has the laws of the rules, Operation the two things that an engine
-- is made of, a threshold and perhaps a booster.
--
-- Signaling is services/sip-processor/app/signaling: Text the methods of strings, Numbers, Headers
-- and Message the parser over the lines of a message, Extraction and Repeated its laws, Listener
-- the queue between the capture and the handler, Delivery what the handler sees.
--
-- Ncc is services/ncc-integration: Sftp is sftp_uploader.py over an interface of the server and
-- Upload what it leaves there, Atrs the requests of atrs_client.py with their token and retries and
-- Retries how they end. The answers of the service are a function of the number of the request.
-- Report has the statistics of report_generator.py from what the queries give, Totals whether they
-- add up.
--
-- Fractions, scores and rates are natural numbers in units of 1/10000, times are natural numbers,
-- and the rounding of floats is not modelled. A text is a list of code points where the code looks
-- into it. An identifier that the code draws and a reading of the clock are arguments, one for each
-- place. Every recursion is structural; fuel is used for slicing a list, where the length of the
-- list is enough, and for the requests of Ncc.Atrs, where two more than the retries is proved to be
-- enough. The numerical means, percentiles and tests of numpy and scipy, the parsing of addresses
-- by `ipaddress`, and the stores are parameters.
--
-- Not modelled: logging and printing; the HTTP, SQL, Redis and Kafka clients; the configuration
-- from the environment; training; the command-line scripts; the services in other languages; in the
-- parts that are modelled, the listings (`list_models`, `get_status`, `list_archives_for_table`),
-- the deletion of expired archives, the blacklist entries and the event bus; the detection query of
-- the sentinel, the challenger and the queue of the inference server, and the CSV files and the
-- schedule of the reports. Calls that the repository hands out are values here, and saved after
-- each change as the code does; whether the repository shares objects with its callers is not
-- modelled.
pub mod Base
pub mod Breaker
pub mod Health
pub mod Ml
pub mod Domain
pub mod Archive
pub mod Cdr
pub mod Sentinel
pub mod Inference
pub mod Signaling
pub mod Ncc
