-- ===== src/Lib.antt =====
-- Buddy Bet: two users bet against each other on the result of a football match; the backend holds
-- their stakes in wallets, settles the bet when the result is confirmed, and takes a fee.
--
-- The parts of the program, and the files that model them (a file X.antt has its children in X/):
--   app/utils/decimal_utils.py                            Money: rounding to cents
--   app/models/*.py                                       Models: rows, enumerations, the database
--   app/core/exceptions.py, commit and rollback           Exec: methods that raise, transactions
--   app/services/ledger_service.py                        Ledger: the entries each operation writes
--   app/services/wallet_service.py                        Wallet: balances, rows and their methods
--   app/repositories/platform_repository.py,
--   app/repositories/fee_config_repository.py             Platform: the fee account, the fee rates
--   app/services/bet_service.py, bet_repository.py        Bets: create_bet, accept_bet, cancel_bet
--   app/services/settlement_service.py                    Settlement: settle_bet and its steps
--   app/services/match_settlement_service.py              Matches: confirm_and_settle
--   app/services/deposit_service.py                       Deposits
--   app/services/withdrawal_service.py                    Withdrawals
--   app/integrations/sync_service.py, status_mapper.py    Sync: the synchronisation of matches
--   app/integrations/providers/*.py                       Providers: the parsers and the fetches
--   app/payments/payfast.py,
--   app/api/v1/endpoints/webhooks.py                      Payfast: signatures, the notification
--   app/services/auth_service.py, app/core/security.py,
--   app/core/dependencies.py, user_repository.py          Auth: registration, login, tokens
--   app/core/config.py                                    Config: the settings that are read
-- Escrow states an invariant over all of these, IsConsistent (balances are whole cents and not
-- negative, every balance is the sum of its ledger entries, every locked balance is the sum of the
-- stakes and withdrawals that are held), and its children treat each service against it.
-- Table has the lookups in a table and their laws, Prelude what all files share, Tests a small
-- database on which the operations run.
--
-- The services call each other as in the source: the bet, deposit and withdrawal services and the
-- settlement service call the wallet service, which writes a wallet's row and then its ledger
-- entries; the match settlement service runs settle_bet once for each bet, each in a transaction;
-- the handler of PayFast's notifications checks them and calls complete_deposit or fail_deposit; the
-- synchronisation asks a provider, a record of three fetches that both clients fill, for payloads,
-- and writes them to the table of matches. A method of a service is a function of the same name from
-- the database to a result and a database. What was written before an exception stays in the session
-- until the caller rolls back, so the database comes back beside the error too, and `transaction`
-- commits or rolls back.
--
-- How the data is modelled:
--   a Decimal is an integer number of millionths, which holds the amounts of two decimal places that
--     the tables store, the fee rates of four, and inputs of up to six, exactly; it has no bound, so
--     the limit of fifteen digits of the columns is not modelled;
--   a UUID is a number that is only compared; the id of a new row is an argument;
--   a moment is a number of microseconds; the clock's reading is an argument;
--   a table is the list of its rows, found by the column that is unique in it; the tables that only
--     take inserts have the newest row first;
--   `numeric`, what the database makes of an amount that it stores in a column of two decimal places
--     and that is read again, is an argument, and its documented behaviour on whole cents is a
--     hypothesis;
--   the signed checkout URL is an argument of initiate_payfast_deposit;
--   what the database answers to a flush of one match, and the libraries (hashing, the signing of
--     tokens, MD5, URL encoding, the parsers of UUIDs, decimals and moments), are arguments, with what
--     they promise as hypotheses where a theorem needs it;
--   a decoded JSON value is a data type of its own, and an operation on a value that has another
--     shape raises; the parsers raise, too, where they put a value that is no text, or no score,
--     into a payload, which the code does and which goes wrong when the payload is used; the HTTP
--     clients, with the errors that they turn into an empty answer, are an argument from the query
--     to the records;
--   the tracker of failed logins, a dictionary of lists, is a function from the address to the list.
-- One session runs at a time: a row lock has no effect in the model. Two sessions that interleave are
-- written out where a theorem is about them, as the part of a method after its unlocked read, run on
-- the row that was read. Recursion is structural, so there is no fuel and every method ends.
--
-- Not modelled: the web endpoints and their schemas, but for the notification of PayFast, and what
-- they call, paged reads and the admin service; the limits of request rates; log texts, notes,
-- payloads and the texts of errors, of which the synchronisation keeps the number; timestamps that
-- the database sets; what a flush that failed does to the rest of the session of a synchronisation.
-- Of the constraints of the database the operations meet one kind: a deposit with a reference that
-- another deposit has is refused, and the session rolled back. The CHECKs of the table of matches,
-- those of a settled bet on winner, payout, fee and rates, and the positive amounts of the two
-- ledgers are predicates that theorems are about; no operation raises for them, and the other CHECKs
-- are left out.
pub mod Prelude
pub mod Exec
pub mod Table
pub mod Money
pub mod Config
pub mod Models
pub mod Ledger
pub mod Wallet
pub mod Platform
pub mod Matches
pub mod Bets
pub mod Settlement
pub mod Deposits
pub mod Withdrawals
pub mod Escrow
pub mod Sync
pub mod Payfast
pub mod Auth
pub mod Providers
pub mod Tests
