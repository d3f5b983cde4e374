-- ===== src/Lib.antt =====
-- The assessment of support employees in ticket-sandbox, where an employee is assigned a test, gets
-- questions drawn from a bank, answers them one by one against the clock and gets a result, the
-- achievements, which are granted from evidence, revoked, disputed and announced, and the sandbox in
-- which the employee's tasks are checked.
--
-- The parts, and the files that model them. Assessment.Constants and Assessment.Questions are the
-- enumerations of assessment/constants.py and the question bank of assessment/models.py.
-- Assessment.Validation is assessment/question_validation.py. The rest is assessment/services:
--   Assessment.Blueprint          blueprint_validation.py: is the bank large enough for a blueprint
--   Assessment.Selection          question_selection.py: the questions of an attempt
--   Assessment.Snapshot           question_snapshot.py: the frozen copy of a question, with its key
--   Assessment.Grading            answer_grading.py: the score of a response to a snapshot
--   Assessment.Exam.Attempts      attempts.py: starting an attempt
--   Assessment.Exam.Flow          question_flow.py: opening the current question
--   Assessment.Exam.Answers       answers.py: submitting an answer
--   Assessment.Exam.Results       results.py: completing an attempt
-- Starting an attempt validates the assignment, selects questions, and builds a snapshot of each,
-- which validates the question. Opening times out the questions that are over, by submitting an
-- empty answer to each; submitting grades against the snapshot; completing reads the answers. A
-- definition has its function's name, without a leading underscore; the branches of a long function
-- are definitions of their own. The modules below a component hold what is proved of it.
-- Assessment.Exam.Life puts the calls on one attempt in sequence, and Assessment.Tests runs all of
-- it on a small exam.
--
-- Achievements is the app of that name: awards with tiers that employees earn.
--   Achievements.Catalog          services/catalog.py: definitions and tiers that fit the rule schemas
--                                 of its child Schemas
--   Achievements.Records          models.py: the rows that the services write
--   Achievements.Grants           services/grants.py, with a child for each of grant, revoke and
--                                 flag_disputed, and children for their proofs
--   Achievements.Notifications    services/notifications.py, with children Feed and Repair
-- A grant finds or creates the award, records an event, raises the award, enqueues a notification
-- and stores a receipt by which a repetition is recognised; a revocation and a correction of a source
-- record events as well. Achievements.Grants.Log reads the events of an award as a log,
-- Achievements.Life puts the calls that write in sequence, and Achievements.Tests runs them. The
-- tables are one record, Store; the events of an award stand in its row, in the order of their
-- creation, by which the table's queries order them as long as the clock does not go back. One clock
-- reading stands for the several of one call. A JSON value is Prelude.Json, whose numbers are
-- natural.
--
-- Sandbox is the app of that name, with training tasks that are checked by running them.
--   Sandbox.Records               models.py: the columns of attempts, tasks, queues and runs
--   Sandbox.Evidence              services/technical_evidence.py
--   Sandbox.Access                models.py: the properties of TaskAttempt
--   Sandbox.Progress              services/progress.py, with its loop in the child Loop
-- These only read. A Route says where evidence is read from; the rows that were fetched before, and
-- the columns that a query adds, are taken as those of the tables. An exit code is a natural number.
-- The rounded percentage is a parameter, since it goes through floating-point numbers, and no law of
-- it is assumed.
--
-- The state. An assignment is a record with its campaign, blueprint, employee and attempts; an
-- attempt holds its snapshots and, once completed, its result; a snapshot holds its answer. These
-- are the rows of assessment/models.py with the columns that the services use, and the row of a
-- one-to-one table inside the row that it belongs to. A snapshot is found by its position, for its
-- primary key: the table has one row for a position of an attempt. A
-- service returns the new row beside its value. It runs in transaction.atomic under a row lock, so
-- a call that raises leaves the tables as they were, and calls on one attempt come one after the
-- other: a raise is a value of Outcome without a new row. ServiceError has a constructor for each
-- message of a ValidationError.
--
-- The values. A score is a decimal with two places, here its number of hundredths; the 28 digits of
-- the decimal division are read as exact, which they are for the rounding to two places with
-- denominators below 10^20. A time is a number of microseconds, a text its code points, a dict an
-- association list in insertion order. The keys in a response are texts, as the views build them,
-- and a response under a name is a list of keys, an object of keys, or another value.
--
-- The code that is not in the repository is a parameter: str.casefold, secrets.token_hex, the
-- SHA-256 digest of canonical JSON, of which no law is assumed, and the seeded random.Random with
-- its shuffle, sample and choice. Of these a theorem assumes, where it says so, that shuffle
-- permutes, that sample draws as many members as asked for, without repeats from a population
-- without repeats, and that choice gives a member. The white space at which str.split splits is
-- written out.
--
-- Fuel. The loop of open_current_question has a round for each question and one more; each round
-- that goes on stores an answer, so this is enough; running out is a value of its own. All
-- other loops are structural recursion.
--
-- Not modelled. The order of the database's query results is that of the lists; created_at and
-- updated_at, display texts, the clean methods and the constraints of the tables, but for the
-- clean method of AchievementEvent and the unique columns that the achievements services and the
-- completion of an attempt rely on;
-- the views, forms and admin pages; the evaluators, source events and reconciliation of
-- achievements and current_metric_problem of its grants and seed_catalog of its catalog; of
-- sandbox, everything that writes; and the other applications of the repository: roadmap,
-- traineediary, the trusted checkers, terminal, training_tasks, config and deploy.
pub mod Prelude
pub mod Assessment
pub mod Achievements
pub mod Sandbox
