-- ===== src/Lib.antt =====
-- openstreetmap-cgimap: the API server of OpenStreetMap.
--
-- The development models the processing of a diff upload, the part of the server that changes the
-- database. An upload is an osmChange document. The XML parser turns the events of the document
-- into nodes, ways and relations, checks each of them, and gives it to the change handler. The
-- handler collects objects in the buffers of the node, way and relation updaters, and has the
-- buffers processed whenever the kind of operation changes. An updater replaces placeholder ids,
-- checks versions and writes the tables; what it did to each object is noted in a tracking object,
-- from which the answer, the diffResult, is assembled.
--
-- Files and the code they model:
--   Prelude, StdMap, Types: shared notation and lemmas; std::map as a list of pairs; the types of
--     include/cgimap/types.hpp and the exceptions of include/cgimap/http.hpp as values. An
--     exception is an error result with the format string of its message, without the arguments.
--   Double, Number: double-precision numbers as a parameter, and std::from_chars for int64_t.
--   QuadTile, Bbox: include/cgimap/backend/apidb/quad_tile.hpp and bbox_t of
--     include/cgimap/util.hpp; Cover is about the expansion of boxes.
--   OsmObject with Node, Way and Relation: include/cgimap/api06/changeset_upload/osmobject.hpp,
--     node.hpp, way.hpp and relation.hpp.
--   XmlParser: include/cgimap/api06/changeset_upload/osmchange_xml_input_format.hpp. Events has
--     on_start_element and on_end_element by the context they are called in; Reader is the
--     description that the parser is compared with; Nesting, Objects, Contents and Refines have
--     the comparison, from the inside of a document outwards; Versions and Valid are about the
--     objects that are passed on.
--   Handler: src/api06/changeset_upload/osmchange_handler.cpp, over an interface of updaters;
--     Changes has the sequence of objects and their groups, Batches the order in which they are
--     processed.
--   Tracking: src/api06/changeset_upload/osmchange_tracking.cpp; Lookup, Order and Complete are
--     about the maps, the order of the rows, and when there is an answer.
--   Packages: build_packages of src/backend/apidb/changeset_upload/node_updater.cpp and
--     way_updater.cpp.
--   Database, NodeUpdater: src/backend/apidb/changeset_upload/node_updater.cpp. Placeholders,
--     Tables, Reference and Process have its functions; Resolved, Versions and Serial are about
--     them. A SQL statement is the operation on the tables that it denotes.
--   Element: what the way and relation updaters have in common. Tags and Deletion have the rest of
--     their shared statements; Serial, Found and Unused are about versions, locks and deletions.
--   WayUpdater: src/backend/apidb/changeset_upload/way_updater.cpp, in the modules Placeholders,
--     Tables, Reference and Process; Serial, Integrity and Unused are about them.
--   RelationUpdater: src/backend/apidb/changeset_upload/relation_updater.cpp. Members has the
--     members and their locks, Changes what counts for the bounding box, Children the relations
--     below a relation; Descent is about that loop, Serial, Unused and Integrity about the rest.
--   Changeset: src/backend/apidb/changeset_upload/changeset_updater.cpp; Limits is about the size
--     of a changeset and the time it is open.
--   Upload: src/api06/changeset_upload_handler.cpp, the parser, the handler and the three updaters
--     put together over one transaction and one tracking object; Responder adds the changeset and
--     the limits of the user. Integrity is about the database after an upload, Allowed about the
--     limits.
--   RateLimiter: src/rate_limiter.cpp for one client; Decay is about the passing of time.
--   PgArray: escape of include/cgimap/util.hpp, array_string_traits of
--     include/cgimap/backend/apidb/pqxx_string_traits.hpp and psql_array_to_vector of
--     src/backend/apidb/utils.cpp; RoundTrip is about them together.
--   Samples: a small database. The modules called Tests run the definitions at concrete inputs.
--
-- Integers: ids of objects in the database are natural numbers, signed ids are integers; where the
-- code converts between widths the model has the wrap-around written out (to_uint64, to_int64,
-- % 2 ^ 32). Loops are structural recursion, but for the do-while loop that collects the children
-- of relations: it runs on fuel, one more than the rows of members, and each of its iterations but
-- the last finds a new member. An assertion that fails, and the use of an empty optional or a null
-- pointer, is an error of its own (assertion_failed).
--
-- Not modelled: libxml++ and the database themselves, transactions and locks, uploads in JSON, the
-- handlers that only read, formatters, input and output, authorization.
pub mod Prelude
pub mod StdMap
pub mod Types
pub mod Tracking
pub mod Packages
pub mod Double
pub mod QuadTile
pub mod Bbox
pub mod Database
pub mod NodeUpdater
pub mod Element
pub mod Number
pub mod OsmObject
pub mod Handler
pub mod XmlParser
pub mod WayUpdater
pub mod RelationUpdater
pub mod Upload
pub mod Samples
pub mod Changeset
pub mod RateLimiter
pub mod PgArray
