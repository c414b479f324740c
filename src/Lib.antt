-- ===== src/Lib.antt =====
-- A platform for restaurants: tills and managers' phones talk to three services. The identity
-- service keeps the users' sessions and one-time passwords. The point-of-sale service keeps sales,
-- their deliveries and couriers; the inventory service keeps the stock of items as a ledger of
-- movements. A sale that is completed, voided or refunded reaches the inventory service as a stock
-- event with the sale's lines.
--
-- The parts and their files:
--
-- Inventory.Model, Inventory.Rules and Inventory.Movement model
-- services/inventory-service/app/models/inventory.py and
-- services/inventory-service/app/services/stock_movement_service.py: the tables, the compatibility
-- of item types and movement types, and record_movement in its numbered steps (the test for a
-- repeated event, the locks, the check against negative stock, the writes, the commit and the
-- messages). The modules under Inventory.Movement say in what ways a call can end and what it does
-- to stock levels, ledger and commit.
--
-- Inventory.Events models services/inventory-service/app/services/event_handlers.py, the five
-- handlers over record_movement. Inventory.Ingest models
-- services/inventory-service/app/api/v1/endpoints/internal_events.py, which calls a handler once
-- for each line of a stock event and answers with one status for each line.
--
-- Inventory.Legs models several movements in one transaction. Inventory.Production models the rows
-- and the transactions of services/inventory-service/app/services/production_service.py, and
-- Inventory.Production.Void void_production_event.
--
-- Pos.Model models services/pos-service/app/models (pos.py, couriers.py, customers.py).
-- Pos.Couriers models services/pos-service/app/services/courier_service.py, with the operations of
-- managers in Pos.Couriers.Manage. Pos.Delivery and Pos.Void model update_delivery_status and
-- void_or_refund_sale of services/pos-service/app/services/sale_service.py. Pos.History looks at
-- sequences of requests to the two. Pos.Sync models sync_sale_batch of the same file: Validate and
-- Create model _create_sale_internal, with the inputs of services/pos-service/app/schemas/sales.py
-- and line_items.py; Pos.Decimal the decimals and their rounding; Pos.Tax
-- services/pos-service/app/services/tax_policy.py, where the answer of the identity service is a
-- parameter, lookup, which may be no JSON, so that the look-up raises and the batch is rolled
-- back, and the settings' default rate is another. Whether the database refuses the row of a sale,
-- which another transaction may cause, is the parameter is_refused. Each sale of a batch stands
-- with the moment at which its turn comes.
--
-- Identity.Model and Identity.Sessions model services/identity-service/app/models/auth.py and
-- services/identity-service/app/services/session_service.py: refresh tokens in families, their
-- rotation, the answer to a replayed token, and the ways to end a session. Identity.Otp models
-- services/identity-service/app/services/otp_service.py. The hashes of tokens and codes, the test
-- of a code and the random tokens and codes are parameters.
--
-- Inventory.Runs models services/inventory-service/app/services/run_service.py, a child module for
-- each operation: the plan of a run (Plan), its start (Start), the stop (Cancel), and the
-- publication (Publish); completing and deleting stand in Inventory.Runs itself, which they share
-- with the look-ups. Inventory.Runs.Division is the decimal division of the standard library,
-- Inventory.Runs.Requests the requests to app/api/v1/endpoints/runs.py that get past the checks of
-- the token and of the store, and Inventory.Runs.Phase the phases of a run without the tables and
-- the step of each operation, with the proofs that the requests keep to them;
-- Inventory.Runs.Restock and Inventory.Runs.Republish hold the proofs about a stop after a start
-- and about a second publication. The quantities that clients send have at most three places, as
-- the columns do.
--
-- Identity.Permissions models services/identity-service/app/core/permission_codes.py,
-- app/services/permission_resolver.py, app/services/rbac_guard.py and app/deps/permissions.py; the
-- roles of platform users are in Identity.Permissions.Platform. Identity.Roles models
-- services/identity-service/app/api/v1/endpoints/business_rbac.py, with the staff in
-- Identity.Roles.Staff and sequences of requests in Identity.Roles.Requests; deleting a role is
-- left out, since the mapper decides what happens to the role's rows. A request that raises leaves
-- the database as it was.
--
-- How code corresponds to definitions: a method that uses a database session is a function of type
-- Exec (Prelude.Monad), from a session to a result and a session. A session holds the rows as the
-- transaction sees them, the rows of the last commit, and the messages published so far. An
-- exception is the result err; what was written before it stays in the session, as in the code,
-- whose caller rolls back. A table is a list of rows; a select with a filter is a search of the
-- list, and of several rows that fit, the first is taken, since the code sets no order. A column of
-- type Numeric is an integer of its last digit; a UUID is a number; a moment is a number of
-- microseconds and the clock is an argument. The rendering of a UUID as text is a parameter,
-- uuid_text, with the law that it is injective and writes no colon.
--
-- The loops of the code run over lists, and their models need no fuel. Fuel is used in one place:
-- Inventory.Runs.Division looks for the place of the 28 digits of a quotient in at most 80 steps,
-- which the 40 digits that two columns have leave enough for.
--
-- Not modelled: other transactions at the same time (the row locks are taken, so a call sees the
-- rows as its own), failures of the database driver and of the message broker, bounds of the
-- Numeric columns, the texts of exceptions and logs, the HTTP routing, the lists of couriers, runs
-- and staff, customers and finance, the recording of a production outside of a run, whose amounts
-- have more digits than the columns, requisitions, the rest of the identity service, and the
-- applications of the tills.
pub mod Prelude
pub mod Identity
pub mod Inventory
pub mod Pos
