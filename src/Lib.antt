-- ===== src/Lib.antt =====
-- A model of rt-test, which runs the Vitest tests of a consumer continuously and falsifies them
-- by mutations. The daemon tracks inputs, decides which Vitest workspaces are due, runs them,
-- stores each run bound to a fingerprint of its inputs, and answers queries about each test from
-- the latest run of its workspace. It also runs falsification jobs, which mutate a module and
-- judge from the runs whether the test detects the mutation.
--
-- Core models packages/core/src: Evidence is evidence.ts (assessFreshness, assessEvidence),
-- Identity is test-identity.ts (testIdentityKey, namePathKey, countBy, identifyModuleTests).
--
-- Inputs models the patterns of packages/daemon/src/inputs/non-inputs.ts, and Fingerprint the
-- result of a fingerprint: Glob is matchesSequence, whose one loop serves segments of a path and
-- characters of a segment; Patterns is matchesSegment, matchesPath, matchesBelow and
-- patternProblem. The matcher runs on fuel, the product of the two lengths each counted with its
-- end. Two loops that move the subject or the pattern on bound it: the start of the latest run
-- never moves back, and between two moves of it the pattern's place only grows.
--
-- Falsify models packages/daemon/src/falsify: Facts is fact-types.ts with the types it takes from
-- its neighbours, Verdict is verdict.ts (judge, judgeNotRun, judgeRan, baselineTrouble,
-- judgeRuns, readRun and what they call).
--
-- Query models how an answer reads the store: Records is store/stored-records.ts with the run and
-- the discovery it holds, States is query/test-states.ts (testStandings, workspaceStandings,
-- runAnswerer, recordFreshness), Due is daemon/due-workspaces.ts (staleReason, retryReason,
-- retryOwed, queueGroup, orderQueue), Lists is vitest/test-lists.ts and query/list-freshness.ts
-- (listedModules, vouchedModules, withModuleLists, listFreshness), and Answer the parts of
-- query/answer.ts that the schedule gives.
--
-- Defects models packages/daemon/src/defects: Freshness is evidenceFreshness of defect-
-- standings.ts, Index the parts of a standing with standingIndex, Standing its defectStandings
-- and standingOf, Counts its countDefectStandings, and Records the definitions and the stored
-- evidence that they read. The hash of a definition and the relative path of its mutation's file
-- are parameters, since Node computes them.
--
-- Selection holds the records of packages/daemon/src/selection/selection-types.ts that a round's
-- explanation is made of.
--
-- Daemon models what the daemon keeps in memory: Changes is the class ChangeSets and Record the
-- class ChangeRecord of daemon/change-record.ts, whose operations are the steps of a relation on
-- its state; Plan is the class FalsificationPlan of daemon/falsification-plan.ts as far as its
-- method next, Endings its methods that mark how a job ended, Entries its method entries, and
-- Standings what it reads of defects/defect-standings.ts with the order of compareStandings.
-- Moments holds the records of daemon/change-journal.ts with the keys of a moment, and Journal
-- the other operations of its class ChangeJournal: a test or an entry is recorded under a key,
-- and a cursor names a sequence of one journal's life. Judgment is the predicate judgeRun of
-- daemon/run-judgment.ts with what follows from a judgement; how a dependency build places
-- changed paths is an argument of it, and a build that throws is none. Explained is the bounded
-- explanation of a selection and Schedule the class WorkspaceSchedule, both of daemon/workspace-
-- schedule.ts; a waiter for a change of the record is a number, and an answer reads the schedule
-- by the functions of Schedule.Read. Waits is changedSince of daemon/waits.ts, what changed for a
-- pending wait since the revision it is bound to, over the coverages of query/wait-answer.ts.
--
-- The parts meet where they do in the source: Schedule reads the due reasons of Query.Due, the
-- verdicts of Judgment and the change sets' jobs; Defects reads the test standings of
-- Query.States, the rating of Core.Evidence and the judgements of Falsify; Journal records the
-- standings of Query.States; and Judgment reads the window of Record.
--
-- A method is a function from the state before to the state after, with its result beside it
-- where it has one.
--
-- A string is the list of its code points, as Array.from gives them, and of its code units where
-- the source compares two by order. A Map is an association list in its order of insertion,
-- undefined is none, and a Set is a list. JSON.stringify of texts and numbers is modelled in
-- Base.Json.
--
-- Not modelled: the Vitest adapter, the SQL of the store, sockets and processes, the command line
-- and the scripts, which are input and output or drive a package that is not in the repository;
-- of the records, the fields that no modelled function reads; the texts of the log. Nor are the
-- class RunWatch of run-judgment.ts, the class Waits of waits.ts, the walk of the selection over
-- the module graph, and the loop of the scheduler.
pub mod Base
pub mod Core
pub mod Inputs
pub mod Falsify
pub mod Query
pub mod Daemon
pub mod Defects
pub mod Selection
