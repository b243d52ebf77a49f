-- ===== src/Lib.antt =====
-- ShopVerse: the parts of the commerce backend that hold stock, money and points, and the mechanisms
-- of its kernel that protect them from a failing plugin or a cron job that runs twice.
--
-- The parts and how they interact:
--   * Stock: the tables `WarehouseInventory` and `Variant` of prisma/schema/main.prisma, with the
--     CHECK constraints of prisma/schema/migrations/20260405120100_final_constraints_and_seeds. The
--     stock on a variant is a cache of the sum over its warehouses.
--   * Inventory: backend/src/inventory/inventory.service.ts, the only way in which orders move stock:
--     reserve, release, commitShipment, restock, sellable.
--   * Gate: the token counters of backend/src/common/redis.service.ts (tryReserveGate,
--     releaseReserveGate, initReserveGate). They are no part of the database, and a transaction that
--     is rolled back leaves them as they are.
--   * Reservation: backend/src/cart/cart-reservation.service.ts. A checkout reserves every line of a
--     cart in one transaction (Reservation/Create), and the reservation is consumed by an order, or
--     given back by its user, by the cap of three reservations per user or by the expiry cron
--     (Reservation/Release); Reservation/Checkout validates it. It writes the stock tables itself.
--   * Wallet: backend/src/wallet/wallet.service.ts, credits and debits with idempotency by reference,
--     and the ledger.
--   * Orders: backend/src/orders/orders.service.ts. Orders/Pricing computes the amounts of an order,
--     Orders/Placement is placeOrder, which consumes a reservation, uses a coupon and debits the
--     wallet, and Orders/Placement/Guest placeGuestOrder, which reserves by itself. Orders/Lifecycle
--     cancels and returns an order and sets its status, Orders/Lines cancels and refunds one line,
--     and Orders/Settlement is the reconciliation of payments in wallet.service.ts. They release and
--     commit through Inventory and pay refunds into the tables of Wallet.
--   * Payments: backend/src/payments. Payments/Currency and Payments/Intents ask a gateway for money,
--     Payments/Webhook is what Stripe's events do to the orders, the reconciliations and the wallets,
--     Payments/Refunds the refund to the original payment, whose steps other requests can come
--     between, and Payments/Retry the cron that tries the refunds again that are stuck.
--   * Loyalty: backend/src/loyalty/loyalty.service.ts.
--   * Admin: the refunds above a threshold of backend/src/admin/admin.service.ts, which one person
--     asks for and another approves, and which are paid into the wallet.
--   * Fraud: backend/src/fraud/fraud.service.ts, whose verdict placeOrder and placeGuestOrder ask for.
--   * Migration: packages/shopverse-migrate/src/csv.ts, the reader of another platform's export.
--   * Referral: backend/src/referral/referral.service.ts, which grants its bonuses through Loyalty.
--   * Coupons: backend/src/coupons/coupons.service.ts, and the use of a coupon by placeOrder and
--     placeGuestOrder in orders.service.ts.
--   * Warehouse: the stock that backend/src/warehouse/warehouse.service.ts moves when an administrator
--     sets it and when the items of a shipment are created, delivered or returned. Warehouse/Routing
--     is routeOrder, which makes the shipments of an order, Warehouse/Shipping updateShipmentStatus,
--     and Warehouse/Splitting splitOrderByWarehouse, which makes an order for each warehouse.
--   * Kernel: the circuit breaker of backend/src/common/circuit-breaker.ts, the semaphore of
--     packages/sdk/src/runtime/semaphore.ts, the lock of the cron jobs of
--     backend/src/common/cron-lock.service.ts, and Kernel/HookRunner, the runner of plugin hooks of
--     backend/src/common/hook-runner.service.ts, which keeps a breaker for each handler.
--   * Plugins: packages/sdk/src/runtime, the versions that a plugin works with (semver.ts), the scopes
--     that it is granted (scope-checker.ts) and the strategies that it registers
--     (strategy-registry.ts), such as the tax strategy and the gateway of Orders and Payments.
--   * Base: Boolean tests, lists, tables as lists of rows, and what a service call ends in.
--
-- How the code is translated. A table is a list of rows; an UPDATE by a unique key changes the first
-- row that fits, and unique keys, foreign keys and CHECK constraints are tests of the writes. A
-- handler inside `$transaction` is a `Tx`, a function from the state to a result: a throw loses the
-- state, which is the roll-back. A handler that goes on after a failure is an `Action`, which comes
-- back with a state in every case. What a handler reads before its transaction is an argument of
-- what the transaction writes, so that two requests that read the same rows can be run one after
-- the other. The functions keep the services' names in snake case.
--
-- Numbers. Quantities, points and times (milliseconds) are natural numbers. The base price of a
-- product is in cents of the currency, a locked price and what a coupon is tested against in
-- ten-thousandths, and every other amount in millionths, so that whole percentages are exact; the
-- roundings that the code writes out (of the tax, of the wallet's part, to minor units) are modelled,
-- and those of its floating-point numbers are not. The clock, UUIDs and what a third party answers
-- are arguments. No recursion needs fuel: every loop goes over a list.
--
-- Not modelled: the plugin loader, the smaller services (affiliates, exchange, flash sales, delivery,
-- invoices), and what is input and output only (controllers, e-mail, search, telemetry, the
-- frontend). Concurrency is modelled where the code handles it: a transaction is atomic, and
-- interleavings are sequences of transactions.
pub mod Base
pub mod Kernel
pub mod Stock
pub mod Inventory
pub mod Gate
pub mod Reservation
pub mod Wallet
pub mod Orders
pub mod Payments
pub mod Plugins
pub mod Loyalty
pub mod Referral
pub mod Coupons
pub mod Warehouse
pub mod Admin
pub mod Fraud
pub mod Migration
