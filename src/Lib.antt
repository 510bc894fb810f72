-- ===== src/Lib.antt =====
-- ozo, a C++ library for asynchronous work with PostgreSQL through libpq, in headers under
-- include/ozo. A request goes through these parts:
--
-- - a pool gives a connection that it keeps, or a connection is made and asked for the oids of the
--   custom types (connection_pool.h, impl/async_connect.h, impl/request_oid_map.h, connection.h);
-- - a query comes from a builder or from a configuration (query_builder.h, query_conf.h), or begins or
--   ends a transaction (transaction.h, detail/begin_statement_builder.h);
-- - a query with its parameters becomes the arrays that libpq takes, the parameters in the PostgreSQL
--   binary format (io/binary_query.h, io/send.h, io/size_of.h, io/array.h, io/composite.h);
-- - the query is sent and its results are read as the socket permits (impl/async_request.h), or the
--   operation is cancelled (impl/cancel.h);
-- - the answer's values are received into C++ objects (io/recv.h, io/istream.h, ext/std/duration.h);
-- - whatever fails becomes an error code, which the error conditions classify (error.h);
-- - a failover strategy looks at the condition and starts the operation again, each try with its share
--   of the time (failover/strategy.h, failover/retry.h, failover/role_based.h, deadline.h).
--
-- Io: the binary format. `PgType` is the type that a template is instantiated at, `El` its values; the
-- functions have the names of the source (`size_of`, `send`, `send_frame`, `recv`, `recv_frame`,
-- `recv_row`, `make_binary_query` for the constructor of `binary_query::impl_type`). Bytes are
-- numbers, an `int32_t` size is its bit pattern, an output stream is the buffer behind it, an
-- exception is an error of `Result`. Io.Send.Wire describes the format independently of the code.
-- Io.Row is `recv_row` of a sequence, Io.Row.ByName that of a structure, Io.Row.Forward `recv_result`
-- through a forward iterator.
--
-- Sizes: a `size_type` is kept as its 32 bits, and the sums of Io.SizeOf wrap around; in the
-- code, a sum of two `size_type` that overflows is undefined.
--
-- Pg: the definitions of the built-in types (pg/definitions.h) as tables by name, their arrays, and in
-- Pg.Bindings fourteen of the C++ types that are bound to them.
--
-- Results: result.h and the loops of io/recv.h over it, a row and a value being coordinates; libpq's
-- functions on a result are the record `PgResult`. Io.Row and Io.Row.ByName take a row as the list of its values.
--
-- Interval: `std::chrono::microseconds` as an interval (ext/std/duration.h), over signed numbers
-- without bounds, with each product and sum of `to_chrono_duration` that is in microseconds tested for 64
-- bits: one that leaves them makes the result `none`. A sum of days cannot leave them.
--
-- TimePoint: `std::chrono::system_clock::time_point` as a timestamp (ext/std/time_point.h), in ticks of a
-- nanosecond; a sum that leaves 64 bits is `none`.
--
-- Error: `error::code`, `sqlstate::code` and `errc::code`, the categories' `message` and `equivalent`.
-- What the library takes from Boost.System and Boost.Asio is the record `Boost`, its documented
-- behaviour the record `IsDocumented`. The values and names of `sqlstate::code` are tables in
-- Error.Sqlstate.Code and Error.Sqlstate.Name, the messages of the other two in Error.Messages.
--
-- Deadline: time points and durations as ticks, a time point being a 64-bit signed number of ticks.
-- Deadline.Handler is the handler with a timer of detail/deadline.h, the ends of the operation and of
-- the timer being its input.
--
-- Failover: a strategy is an instance of the record `FailoverTry`; `run` is the list of events that
-- follow the outcomes of the tries, which are its input. Failover.Completion states what a strategy
-- promises and draws the conclusions that hold for every strategy; Failover.Retry and
-- Failover.RoleBased are the two of the library. Failover.RoleBased.Sources is a source of connections
-- for each role, and its provider.
--
-- Request: one request in progress. `start` makes both operations of impl/async_request.h begin; a
-- step is the end of a pending wait (`on_written`, `on_readable`), with an error or without, in any
-- order, and with any change of the native handle in between. libpq is the record `Libpq`.
--
-- Request.Timed is `async_request` as a whole: over a provider of connections, with the deadline handler
-- around the handler of the request.
--
-- Provider: what provides a connection (connector.h, connection.h): a connection, a source, or a provider
-- with a bound on the time.
--
-- Connection: `connection` of connection.h: its handle, which is a number, the descriptor of its
-- socket, and the handles that were finished. Connection.Handles runs any operations of a client on it.
--
-- Connect: `async_connect_op` of impl/async_connect.h, the ends of its waits being its input, and in
-- Connect.OidMap the request for the oids that follows (impl/request_oid_map.h, type_traits.h).
-- Connect.Timed is `async_connect` as a whole: both of these, with the deadline handler around them where
-- there is a time constraint, on any sequence of ends of waits, of the request and of the timer.
--
-- Pool: `pooled_connection` and the handlers of impl/connection_pool.h. The pool of resources enters by
-- the handle it gives, and its fate when a pooled connection is destroyed leaves the model as a value.
--
-- Cancel: `dispatch_cancel` and `deadline_cancel_handler` of impl/cancel.h, the ends of the operation
-- and of the timer being the input.
--
-- Transaction: the options, the statements and the operations of transaction.h. The execution of a
-- statement is a parameter.
--
-- Query: Query.Builder is query_builder.h, Query.Conf and Query.Repository are query_conf.h: the line
-- visitor, the checks, the descriptions, and the repository. An exception is a `Failure`.
--
-- Options: the maps of options of core/options.h, an option being a number, and `set` of the factory.
--
-- Bounds and fuel: the loop that drops the results behind the one that is handled (`drain`) recurs on
-- the number of results left, which libpq is taken to count, and one more. `ltob36` and `to_string`
-- recur on fuel, the number itself and one more, enough because a division makes a positive number
-- smaller. `recv_rows` recurs on the number of rows and one more. All other loops are structural.
--
-- Not modelled: the rules of the three Boost.Spirit parsers of query_conf.h, the identifiers
-- of ext/boost/uuid.h, the composition of the parts with
-- executors, strands and completion tokens, and template machinery without behaviour at run time.
-- Parameters: Boost (parsers, trimming, lexical conversion, error codes), libpq, the pool of resources,
-- the connection source behind a pool and those of the roles, and what a role of the caller's recovers.
pub mod Base
pub mod Cancel
pub mod Connect
pub mod Connection
pub mod Deadline
pub mod Error
pub mod Failover
pub mod Interval
pub mod Io
pub mod Options
pub mod Pg
pub mod Pool
pub mod Provider
pub mod Query
pub mod Request
pub mod Results
pub mod TimePoint
pub mod Transaction
