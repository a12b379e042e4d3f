-- ===== src/Lib.antt =====
-- IAM Sentinel is a Flask application that scans AWS accounts for identity risks, keeps each finding
-- under a stable group across scans, and lets a team work on the findings: move them through a state
-- machine, suppress them or accept their risk for a while, assign and discuss them.
--
-- Parts, by file. A state-changing service of app/services is a function from a `Session` (the
-- tables, the clock and the public-mode setting) to a result and a session; what it raises is an
-- `Error`, and what it wrote before it raised stays, since only `session_scope` rolls back.
--   Prelude                 lists, options, texts and Boolean tests over the native numbers
--   Domain/Enums            app/domain/enums.py
--   Domain/Dates            what app/services/exception_service.py uses of `datetime.date`, as
--                           Python's library documents it
--   Table, Models           app/models/tables.py as lists of rows in primary-key order
--   Service                 the monad of the services and the errors that they raise
--   Rbac                    app/services/rbac.py: roles, capabilities, the public-mode clamp
--   Workflow                app/services/workflow_service.py: the finding-status state machine
--   Trail                   what the tables of groups, findings and history promise one another
--   Exceptions              app/services/exception_service.py: `create_exception`,
--                           `revoke_exception`, `expire_exceptions`
--   Users                   app/services/user_service.py and its last-admin guard
--   Collaboration           app/services/collaboration.py: comments and assignment
--   Bulk                    app/services/bulk_service.py: batches of the services above
--   Scan                    app/domain/fingerprint.py and the persistence of findings in
--                           app/services/scan_service.py (`_get_or_create_group`,
--                           `_persist_findings`)
--   Records, Json           app/domain/records.py, and JSON values as Python holds them
--   LeastPrivilege          app/analysis/least_privilege.py: `recommend` and the policy it suggests
--   LogParse                app/domain/logparse.py: CloudTrail lines and the IAM action of an event
--   Compliance              app/compliance/mappings.py
--   Checks                  app/analysis/checks: all checks, by their modules; app/analysis/registry.py
--                           and app/analysis/engine.py: the activity index and `run_analysis`
--   Counting                the dictionaries that count, as the checks and the engine fill them
--   Runs                    app/services/scan_service.py: `_create_run`, `run_scan`, `enqueue_scan`,
--                           `execute_scan` with its commits, and the rows that a run persists
--   Diff                    app/services/diff_service.py: what changed between two runs
--   Query                   app/services/finding_query.py: the findings table, sorted and in pages
--   Graph                   app/analysis/graph.py: the permission graph, what a principal reaches in
--                           it, and the escalation paths
--   Risk                    app/analysis/risk.py: the score of a finding
--   Policy                  app/domain/policy.py: the reader of IAM policy documents (`statements`,
--                           `granted_actions`, the wildcards)
--   Api                     the routes of app/api/findings.py that change a finding, with the
--                           transaction of app/db.py around them
--   Api/Batches             its bulk routes
--   Tests                   a session with three groups and two users, and the theorems at it
-- Names are the source's. Where a service takes a row object, its model takes the row's key and
-- looks the row up; a text that a column may hold beside its known values is a constructor `other`.
--
-- A session is sound (`Exceptions.Revoke.IsSound`) when its tables agree with one another: the
-- status history of every group is a run of the state machine that ends in the group's status, the
-- findings of its last run show that status, and a group has an active exception exactly when its
-- status is an exception state.
--
-- Bounds: all loops are over finite lists, so there is no fuel. Keys are unbounded numbers, as
-- SQLite's row ids are in practice. Dates are those of the years 1 to 9999.
--
-- A scan is a `Job`: the run as the session's object, the tables, and the list of the rows that its
-- commits published, which is what another session can read. The adapter, the analysis and the job
-- queue are parameters of the scan; `Checks/Registry` is the analysis on its own.
--
-- Not modelled: Flask, SQLAlchemy's unit of work beyond commit and rollback, errors of the database
-- itself, the lock that serialises two administrators (a call is one step here), the texts of error
-- messages, the web pages and templates, the fuzzy search and the other read models, and the
-- ingestion of AWS data. The searches in the permission graph are networkx's and parameters, as are
-- the formula of the blast radius and the posture score of an account, which rest on floats.
-- `Graph/Reach` makes what the context of the checks holds. Of the log parser the key=value format
-- is left out, since it is read by regular expressions. The score of a finding is exact in
-- twentieths where the program's is a float; the two round alike for every severity, impact and
-- likelihood that a finding can have. Parameters stand for the two hashes, of passwords and of
-- fingerprints, for `json.loads`, `json.dumps`, `int` on texts and dateutil's parser, and for what
-- Python prints for numbers, times, lists and objects; and for how the database compares columns
-- and matches LIKE. Letters are lowered as those of ASCII.
pub mod Prelude
pub mod Json
pub mod Domain
pub mod Records
pub mod Rbac
pub mod Table
pub mod Models
pub mod Service
pub mod Workflow
pub mod Trail
pub mod Exceptions
pub mod Users
pub mod Collaboration
pub mod Bulk
pub mod Api
pub mod Scan
pub mod Risk
pub mod Policy
pub mod LeastPrivilege
pub mod LogParse
pub mod Counting
pub mod Compliance
pub mod Checks
pub mod Runs
pub mod Diff
pub mod Query
pub mod Graph
pub mod Tests
