-- ===== src/Lib.antt =====
-- Verification library of PatrolX, the inspection platform in app/.
--
-- The parts that are modelled, and how they interact:
-- * Archive (app/core/archive.py): packages from outside are unpacked into a folder. Archive/MemberPath
--   and Archive/Members check names and types of members (_normalize_member_path,
--   _validate_zip_member, _validate_tar_member), Archive/ZipDirectory scans a ZIP's central directory
--   before anything else (_reject_unsafe_zip_raw_names), Archive/Target finds the place of a member
--   and copies it (_resolve_member_target, _ensure_target_paths, the copy loop), Archive/Unpack is the
--   loop over the members with its error handling, shared by unpack_zip and unpack_tar, which
--   Archive/Packages composes (unpack), and Archive/Gzip is unpack_gzip. Archive/Disk is the file
--   system: a list of paths with directories, files (by size) and links; the operations are those of
--   pathlib that the code calls. Each step takes the disk and gives it back.
-- * Extraction (app/services/extraction): Budget is budget.py, ExtractionBudget, which counts files
--   and bytes over all packages of a task; Patterns and Selection are the selection of an archive's
--   members of nested.py (_member_pattern_matches, select_and_decompress), and Matching its
--   decompress_matching_members; Archive/Gzip unpacks their GZIP members.
-- * Alarm (app/inspectors/alarm): common.py reads the alarm CSV files of a task into records. Header,
--   Objects, Times and Row are the parts of _parse_row, Files is the loop over files and rows of
--   parse_alarm_files with its budgets, Parse is the function as a whole. Two rules judge the
--   records: Recurrence (recurrence.py: flags, summaries by alarm type and object, the verdict _run)
--   and ActiveState (active_state.py).
-- * Retention (app/services/retention.py): which task scenes are kept, and the removal of the others.
-- * Rules (app/inspectors/base.py, app/inspectors/registry.py): Contract is the contract of a rule
--   (Inspector.validate), Registry the registered rules and preparations with their sorted
--   views, States which rules are enabled (app/services/rule_states.py), Scope the rules that a
--   task freezes when it starts (app/services/rule_scope.py).
-- * Scanning (app/services/scanning/matcher.py): the files that a rule's patterns select.
-- * Parallel (app/services/parallel.py): the window of futures of a stage and the recovery after a
--   pool broke. What the pools do is a record of functions, so a proof covers any order of events.
--   Parallel/Stage is run_stage as a whole: the policy, the serial path, the order of the outcomes.
-- * Executor (app/services/executor.py, app/services/unit_runtime.py): Unit is one unit
--   (execute_unit), Plan makes the plans of preparations and inspections from the registry, the
--   catalogue and the states of the preparations, Run is a whole task (run_all: extraction, then two
--   stages on one runner), Single is one rule run again (run_rule_with_deps).
-- * Base has lists, texts as lists of code points, Python's sorted, results.
--
-- State is passed explicitly: a handler that changes the disk, the counts or the quality takes the
-- old value and gives the new one. An error is a value: a member's error code, or the OverflowError
-- of a moment. Numbers are natural; a subtraction of the code is written only where its result is
-- not negative, or is cut off by max(0, ...) in the code too.
--
-- Bounds and fuel: following links on the disk takes fuel max_links, and `resolve` gives none when it
-- is used up, which stands for the error of a circle of links. The scan of a central directory takes
-- fuel that its length bounds. The loop of a stage takes as much fuel as there are units, and one
-- more, which is shown to be enough. All other loops are by recursion on their lists.
--
-- Parameters, for what the code takes from Python and its libraries: the member lists of zipfile
-- and tarfile and the chunks that a stream yields (with a flag for one that breaks), str.casefold,
-- str.lower, word characters of re, datetime.fromisoformat and strptime, stable_hash, and
-- for the removal of scenes is_archive and the task id of a package; re.compile and fullmatch,
-- fnmatch, the catalogue of a task's files, and what the functions of the rules return (Surroundings). What
-- csv.reader and the decoding of a file give is the type Content, an input.
--
-- The disk's operations find a path as it is written, without following links: for the unpacking loop
-- Archive/Packages/Links compares this with `resolve`. A link on the way of `mkdir` counts as an
-- OSError, also where it leads to a directory.
--
-- Not modelled: texts for display, logs, the web interface, the database, reports, the KPI services,
-- the classification of files and the manifest, and the recursive expansion of nested archives.
pub mod Base
pub mod Archive
pub mod Extraction
pub mod Alarm
pub mod Retention
pub mod Parallel
pub mod Rules
pub mod Scanning
pub mod Executor
