-- ===== src/Lib.antt =====
-- The verification library of the backend: the parts of services/ that hold its own rules, translated
-- from Python and proved.
--
-- Billing (services/billing). Billing/Models.antt holds the rows of models.py and the database as a
-- record of tables; Billing/Monad.antt the calls that read and write it and may raise, where `atomic`
-- is `transaction.atomic()`. Billing/Ledger.antt is ledger.py (`append_row` is `_append`, `locked` is
-- `_locked`), Billing/Seats.antt seats.py, Billing/Accounts.antt accounts.py and Billing/Credits.antt
-- credits.py. The operations of an account lock its row first, so a call is one step on the database,
-- and what runs concurrently is a sequence of calls. Seats and accounts call the ledger; the ledger
-- calls none of them. The columns' ranges and the constraints of the tables are in `create_row`,
-- `create_seat` and `store_limit`. The formats of numbers and moments and the settings are parameters.
--
-- Two-factor authentication (services/accounts/mfa.py). Mfa/Codes.antt mints codes and finds the step
-- that a code was minted for; Mfa.antt is the life of the person's device. Encryption, HMAC, SHA-256
-- and two operations of `str` are parameters, in the record `Crypto`. A comparison with a text that
-- is not ASCII is an outcome of its own. Random drawing is an argument.
--
-- Domain ownership (services/identity/domains.py). Domains.antt verifies a domain against the answers
-- of the resolvers, which are a parameter, and routes addresses.
--
-- Triage (services/customers/triage.py). Triage.antt is the score of the attention list.
--
-- Scenarios (services/scenarios/engine.py). Scenarios/Rows.antt holds the rows, the saved graph and the
-- log; Scenarios/Conditions.antt the clauses; Scenarios/Handlers.antt the actions; Scenarios.antt the
-- walk, whose recursion is on what is left of `visited_guard`, the bound that the code itself has.
-- Decimals, the order of texts, mail delivery and the match of a phrase are parameters.
--
-- Bulk edits (services/portfolio_core/bulk.py). Bulk.antt is the batch over a table of any rows, where
-- the editor's visibility, the serializer and `after_save` are parameters.
--
-- Churn risk (services/customers/churn.py). Churn.antt is the rule, in hundredths.
--
-- Portfolio lists (services/portfolio_core/shape.py). Portfolio/Cursors.antt is the cursor as a text;
-- Portfolio.antt the rank that lists are sorted by, the sections and the pages. A portfolio's own parts
-- are the record `PortfolioOrder`; floats, JSON, base64 and dates are the record `World`. The orders of
-- Prelude/Orders.antt are strict and total, as Python's comparison of tuples is. What a page promises is
-- `page_of` in Portfolio/Resume.antt; `collect` in Portfolio/Walk.antt follows the cursors for as many
-- pages as it is given, and a page more than there are rows is enough.
--
-- Admission (services/identity/onboarding.py, login.py, context.py, models.py). Admission/Rows.antt holds
-- the rows, the site with its cache, and calls that raise; Admission.antt approvals and what a grant
-- writes, with the seats of Billing; Admission/Newcomers.antt access requests and invitations;
-- Admission/Codes.antt the single-use codes; Admission/Routes.antt where a person without standing is
-- sent; Admission/Login.antt a sign-in; Admission/Ownership.antt (services/identity/ownership.py) the
-- owner of an organisation. Providers, signed states and tokens are parameters. A transaction restores
-- the tables and not the cache.
--
-- Segments (services/segments/registry.py, rules.py, compiler.py, evaluate.py). Segments/Registry.antt
-- holds the fields; Segments/Blocks.antt and Segments/Validation.antt the check of rules;
-- Segments/Presenting.antt the rules as a reader reads them; Segments/Queries.antt what a `Q` is and when
-- a row meets it; Segments/Parts.antt, Values.antt, Outputs.antt and Compiler.antt the compiler;
-- Segments.antt the members. Rules are JSON on the way in and `Rules` once they are checked; none stands
-- for an exception of the compiler. What the database says of a column, who may open what, and whether
-- Django prepares a lookup when a query of parents is filtered are parameters.
--
-- Webhooks (services/webhooks/engine.py, signals.py). Webhooks.antt is the check of a URL, a delivery and
-- those of an event. The libraries of the network are the record `Network`, whose answers to a lookup
-- may differ from one to the next.
--
-- The nightly step (services/segments/nightly.py, baseline.py). Nightly.antt is a night of each segment
-- and the run over all of them; what it takes from Segments.antt is `member_ids`, as an argument.
--
-- Texts are native strings, read by their codes (Prelude/Texts.antt); numbers are native, and the
-- integers of Prelude/Int.antt stand on them. The loops are over
-- lists; the walk of a scenario alone counts its turns, as the code does.
-- Not modelled: views, serializers, admin, tasks, network clients, prompts, and what only formats.
pub mod Admission
pub mod Billing
pub mod Bulk
pub mod Churn
pub mod Domains
pub mod Mfa
pub mod Nightly
pub mod Portfolio
pub mod Prelude
pub mod Scenarios
pub mod Segments
pub mod Triage
pub mod Webhooks
