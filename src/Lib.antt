-- ===== src/Lib.antt =====
-- The verification library of syrius-orbit-daemon, the edge daemon that bridges VDA5050 messages
-- between a local and a cloud MQTT broker, records them in an event log, and projects the log into
-- the read model that its HTTP side queries.
--
-- The program's parts and the files that model them:
--   - Common, Bytes, Json: shared types. A std::string is the list of its bytes; JSON objects keep
--     the order of their members.
--   - Schema: the message structs and enumerations of include/syrius_orbit/vda5050_schemas. Codec:
--     the conversions that nlohmann/json generates, as parameters.
--   - Topic: VDA5050TopicContext, VDA5050Proxy::parse_topic_prefix, buildFilter, parseTopicContext,
--     buildTopic (include/syrius_orbit/mqtt, src/VDA5050Proxy.cpp).
--   - Db: the SQLite tables as lists of rows, and the repositories of src/db. Db.Events is the
--     append-only log; Db.Robots, Db.Orders, Db.Actions and Db.Maps are the read model.
--   - Projection: the projectors and ProjectionEngine::run (src/projection). `cycle` is one round.
--     Projection.Engine: start, stop and the thread of the engine, one access at a time.
--   - Mqtt: MqttSubscriber and MqttPublisher (Mqtt.Client), VDA5050Subscriber (Mqtt.Subscriber),
--     TypedPublisher and VDA5050Publisher (Mqtt.Publisher, Mqtt.Prune), VDA5050EndPoint
--     (Mqtt.EndPoint), all in include/syrius_orbit/mqtt.
--   - Proxy: VDA5050Proxy (src/VDA5050Proxy.cpp); Proxy.States says what states it can be in,
--     Proxy.Life and Proxy.Sessions run its methods and the connection events in any order;
--     Proxy.Opened and Proxy.Serving say which callbacks its endpoints hold.
--   - Recorder: Vda5050EventRecorder (src/Vda5050EventRecorder.cpp).
--   - Config: RuntimeConfig, its Override and its from_json (include/syrius_orbit/RuntimeConfig.hpp).
--   - Main: the options, the config file and the choice of the configuration (src/main.cpp);
--     Main.Numbers is std::to_string, std::stoi and the cast to std::uint16_t.
--   - Migrator: SchemaMigrator and Database::migrate (src/SchemaMigrator.cpp, src/db/Database.cpp).
--   - Daemon: FleetGateway, SpatialService and Daemon::run (src/FleetGateway.cpp,
--     src/SpatialService.cpp, src/Daemon.cpp). Daemon.Threads: Daemon::run, Daemon::stop, main's loop and
--     the HTTP thread, interleaved in any order. Daemon.Handling: a message of a broker on its way
--     through handle_message, the wrapped callback, dispatch and the callbacks of the bridge and the
--     recorder; Daemon.Wired: the callbacks that stand on the endpoints once the recorder is attached;
--     Daemon.Served: the daemon between the start of the gateway and the stop request.
--   - Tests: the theorems at concrete inputs.
--
-- How they interact: the proxy owns the endpoints, an endpoint owns its subscriber and publisher, and
-- callbacks are the values forward_to_cloud, forward_to_local and record_event in the subscribers'
-- lists. The recorder inserts into Db.Events.Table, which the projection reads.
--
-- Outside Daemon.Threads and Projection.Engine each method is one step, without locks and threads;
-- sleeping and logging are not modelled. Doubles and int64_t
-- values are 64-bit patterns, since the code copies and never computes with them. Loops are structural
-- recursion on the list that they run over (rows, callbacks, migrations, the rounds of the waiting
-- loops), and the threads run over a list of turns. Only to_string counts rounds, as many as the number itself,
-- which are enough since a number has fewer digits. Ids of the log are unbounded numbers. The cloud client
-- may connect before each round of the waiting loop and, since its loop runs from the gateway's start on,
-- in each of the three gaps of Daemon.begin_serving (Gaps).
--
-- Parameters, since their code is not part of the repository's own sources: nlohmann/json (Codec,
-- Serializer, and JsonLibrary for the config file), argparse (Parser), httplib's stop (`early`: whether a stop
-- that comes before the server listens is remembered), mosquitto (Mosquitto, Broker, Network: what each call returns), SQLite's scanning order
-- (`scan`), clock and execution of migration texts, and the generated list of migrations.
--
-- Not modelled: the HTTP server's handlers but for /health, its redirect and static mount, the log
-- format and the log options, the web console, and the vendored JSON library. The steps of Daemon.Threads
-- take the outcome of the start-up, of the bind and of isRunning as given; Daemon.run computes them.
pub mod Common
pub mod Bytes
pub mod Topic
pub mod Db
pub mod Json
pub mod Schema
pub mod Codec
pub mod Projection
pub mod Mqtt
pub mod Config
pub mod Proxy
pub mod Recorder
pub mod Migrator
pub mod Daemon
pub mod Main
pub mod Tests
