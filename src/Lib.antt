-- ===== src/Lib.antt =====
-- A verification library of alpaca-connectors: the placing of batches of orders on an Alpaca
-- account, the registrations of accounts with their keys, the snapshots of holdings, the universes
-- of assets, the configurations of portfolios, the Jobs that run configurations, and the helpers
-- of bars and of batched reads.
--
-- Execution models `src/alpaca_connectors/execution`. Execution/Orders is `orders.py`: its records
-- in Orders/Types, the translation of Alpaca's order states in Orders/Status, the ledger rows in
-- Orders/Rows. The other modules are `services.py`. Execution/Effects has `ExecutionDependencies`,
-- whose collaborators (the Alpaca client, the execution ledger, the price reader, the capture of
-- holdings, the clock, the registrations) are parameters over a hidden state, and the operations
-- as functions from that state to a result, the list of calls made and the state left. Reads of
-- accounts, assets, prices, the time and batches leave no entry in that list; lookups of orders
-- do, with their answer. Execution/Broker is the part from `_find_alpaca_order` to
-- `_wait_for_terminal`, Execution/Checks the pre-trade checks without a call, Execution/Batch
-- those with calls up to `_check_batch`, Execution/Persist the part up to `_persist`, and
-- Execution/Services the public operations. Each keeps its function names, without the leading
-- underscore.
--
-- Account/KeyRequests models `src/alpaca_connectors/account/key_requests.py` over a table of rows
-- that is a parameter with the two laws that the platform documents for it (`TableLaws`).
-- Operations/ConfigurationJobs models `src/alpaca_connectors/operations/configuration_jobs.py`
-- over a platform that is a parameter; the starts of runs are listed by configuration.
--
-- Operations/SignalJobs models `signal_job_configurations.py` and `signal_jobs.py` there; its reads
-- of references are listed with their answers. Account/KeyRequests/Life has the calls on requests as
-- steps between stores, and the life of a request that they follow.
--
-- Actions is how the other parts with calls are written: a function from a hidden state to a
-- result or an exception, the list of the writes made, and the state left. Actions/Within says of
-- an operation that its writes and its end are of a kind, Actions/Spec that its result, writes and
-- states are related, Actions/Hoare relates a state before to one after, Actions/Checked follows
-- checks without calls and Actions/Calls joins the two.
--
-- Universes models `src/alpaca_connectors/universes`: Universes/Sources is `registry.py` and
-- `sources.py` for the sources, Universes/Registry `registry.py` for the universes,
-- Universes/Seeding the packaged sources, Universes/Materialized `materialized.py`, all over
-- tables and a Markets in Universes/Effects. Universes/Reconciled proves the seeding against a
-- table that keeps what is written to it.
--
-- Account/Credentials is `src/alpaca_connectors/account/credentials.py`, with sealing,
-- fingerprints and the reading of Secrets as parameters; Account/Registrations is
-- `account/services.py` and `account/legacy_secrets.py` beside it, for the update and the removal
-- of a registration. Holdings is `src/alpaca_connectors/holdings`: Holdings/Rows is `account.py`,
-- Holdings/Capture `services.py`. Portfolios is
-- `src/alpaca_connectors/portfolios/configurations.py`: its checks of single values,
-- Portfolios/Rebalance and Portfolios/Configurations for the two kinds of rows, each over a table
-- that is a parameter.
--
-- MarketData/Bars models the frequencies, symbols and bindings of
-- `src/alpaca_connectors/market_data/alpaca_bars_support.py` with Alpaca's catalogue as a
-- parameter, and MarketsApi the batches and pages of `src/alpaca_connectors/markets_api.py`.
--
-- What stands for what: the start of the Markets engine is left out; an update that changes only
-- some columns is a record of options, where none keeps the column; quantities and prices are whole
-- numbers of 10⁻⁹ and dollars whole numbers of 10⁻¹⁸, so the rounding of floats is not modelled; a
-- commission is such a number, an infinity or NaN; times are microseconds and durations
-- milliseconds, those of bars microseconds; a UUID is the number that its text stands for, with the
-- canonical text printed from it; letter case and blanks are those of ASCII; English messages are
-- replaced by constructors; an exception of a collaborator is `none`; orders stored as JSON are
-- records. The wait for the sells is a recursion on fuel, one round for each millisecond of the
-- time allowed and one more, which is enough for every poll interval that is positive.
--
-- Not modelled: the ledger over the platform's tables, the clients, the HTTP interface, the
-- command line, the storage of bars, the runs of portfolios, the registration of assets,
-- migrations and start-up, which call libraries for the most part; the first registration and the
-- refresh of accounts; the configurations of bars; the listings of universes,
-- accounts, holdings and portfolios; and, of the files above, the JSON form of orders, the data
-- frame of bars, the table declarations and the argument parsers.
pub mod MarketData
pub mod MarketsApi
pub mod Operations
pub mod Prelude
pub mod Actions
pub mod Universes
pub mod Holdings
pub mod Portfolios
pub mod Account
pub mod Execution
mod Tests
