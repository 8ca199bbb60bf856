-- ===== src/Alarm/Files.antt =====
-- parse_alarm_files and _coverage of app/inspectors/alarm/common.py: the loop over the files and the
-- loop over a file's rows, with the size and row budgets, duplicate rows and failures of one file.
pub mod Balance
pub mod Conservation
use patrol_x.Base.Text.{text_le}
use patrol_x.Base.{
  ℕ, suc, ◌+◌, ◌-◌, ◌*◌, max, min, Bool, true, false, not, ◌&&◌, ◌||◌, ltb, leb, ◌==◌, List, [],
  ◌∷◌, ◌++◌, Option, none, some, if◌then◌else◌, Result, ok, err, ◌>>=◌,
}
use patrol_x.Base.Lists.{any, all, is_nil, length, get_elem?, count_if}
use patrol_x.Base.Sort.{sort}
use patrol_x.Base.Text.{Text, text_eq, strip}
use patrol_x.Alarm.Records.{
  AlarmRecord, AlarmQuality, empty_quality, AlarmFileResult, FileStatus, matched, failed,
  budget_exceeded, FileError, row_budget_exceeded, file_too_large, encoding_error, format_invalid,
  AlarmCoverage, Moment, tally,
}
use patrol_x.Alarm.Header.{Header, resolve_header, has_required, normalize_token}
use patrol_x.Alarm.Times.{TimeError}
use patrol_x.Alarm.Row.{Library, parse_row, whole_seconds}

-- A row of `csv.reader`, with `reader.line_num`.
pub record CsvRow : Type 0 where
  pub line_num : ℕ
  pub cells : List Text

-- What reading and splitting a file gives: it cannot be read, its bytes are in neither encoding, the
-- reader raises at the header, there is no header, or there are rows and perhaps a csv.Error behind.
pub data Content : Type 0 where
  unreadable undecodable bad_header empty : Content
  table : List Text → List CsvRow → Bool → Content

pub record Source : Type 0 where
  pub name : Text
  -- none: `stat` raises an OSError
  pub size : Option ℕ
  pub content : Content

pub record Budgets : Type 0 where
  pub max_file_bytes : ℕ
  pub max_file_rows : ℕ
  pub max_task_rows : ℕ

abbrev pub default_budgets : Budgets
default_budgets = record {
  max_file_bytes = 32 * 1024 * 1024;
  max_file_rows = 100_000;
  max_task_rows = 250_000;
}

pub data BudgetMessage : Type 0 where
  file_size file_rows : Text → BudgetMessage
  task_rows : BudgetMessage

abbrev pub Canonical : Type 0
Canonical = List (Text × Text)

-- The variables of the loop over the files.
pub record Totals : Type 0 where
  pub records : List AlarmRecord
  pub files : List AlarmFileResult
  pub quality : AlarmQuality
  pub seen_rows : List Canonical
  pub raw_rows : ℕ
  pub duplicate_rows : ℕ
  pub task_rows : ℕ
  pub budget_exceeded : Bool
  pub budget_messages : List BudgetMessage
  pub task_stopped : Bool

-- The variables of the loop over the rows, beside those.
pub record Progress : Type 0 where
  pub totals : Totals
  pub rows : ℕ
  pub valid : ℕ
  pub excluded : ℕ
  pub duplicates : ℕ
  pub budget_code : Option FileError

-- The order of tuples of texts.
abbrev pub cell_le : Text × Text → Text × Text → Bool
cell_le (k, v) (j, w) = if text_eq k j then text_le v w else text_le k j

abbrev pub canonical_eq : Canonical → Canonical → Bool
canonical_eq [] [] = true
canonical_eq ((k, v) ∷ a) ((j, w) ∷ b) = (text_eq k j && text_eq v w) && canonical_eq a b
canonical_eq _ _ = false

abbrev pub is_blank : List Text → Bool
is_blank cells = all (λ c. is_nil (strip c)) cells

abbrev pub append_to {ℓ} : {A : Type ℓ} → List A → A → List A
append_to l a = l ++ a ∷ []

module _ (lib : Library) (raw_headers : List Text) where
  abbrev pub header_token : Option Text → Text
  header_token none = []
  header_token (some h) = normalize_token lib.lower h

  abbrev pub label_cells : ℕ → List Text → Canonical
  label_cells index [] = []
  label_cells index (value ∷ rest) =
      (header_token (get_elem? raw_headers index), strip value) ∷ label_cells (index + 1) rest

  unfoldable pub canonical_row : List Text → Canonical
  unfolding text_le sort strip
  canonical_row cells = sort cell_le (label_cells 0 cells)

module _ (lib : Library) (budgets : Budgets) (source : Text) (raw_headers : List Text) where
  abbrev pub header : Header
  header = resolve_header lib.lower raw_headers

  abbrev pub count_row : Progress → Progress
  count_row p = record p {
    totals = record p.totals {
      raw_rows = p.totals.raw_rows + 1;
      task_rows = p.totals.task_rows + 1;
    };
    rows = p.rows + 1;
  }

  abbrev pub note_duplicate : Progress → Progress
  note_duplicate p = record p {
    totals = record p.totals { duplicate_rows = p.totals.duplicate_rows + 1 };
    duplicates = p.duplicates + 1;
  }

  -- `if record is None or excluded`, and what follows it.
  unfoldable pub note_parsed : Canonical → Option AlarmRecord × AlarmQuality → Progress → Progress
  note_parsed key (none, quality) p = record p {
    totals = record p.totals { quality = quality };
    excluded = p.excluded + 1;
  }
  note_parsed key (some r, quality) p = record p {
    totals = record p.totals {
      quality = quality;
      seen_rows = key ∷ p.totals.seen_rows;
      records = append_to p.totals.records r;
    };
    valid = p.valid + 1;
  }

  -- A row that passed the budgets.
  unfoldable pub read_row : CsvRow → Progress → Result TimeError Progress
  unfolding note_parsed canonical_row parse_row
  read_row row p =
      let key = canonical_row lib raw_headers row.cells in
      if any (canonical_eq key) p.totals.seen_rows then ok (note_duplicate (count_row p)) else do
        parsed ← parse_row lib row.cells header source row.line_num p.totals.quality
        ok (note_parsed key parsed (count_row p))

  abbrev pub stop_file : Progress → Progress
  stop_file p = record p {
    totals = record p.totals {
      budget_exceeded = true;
      budget_messages = append_to p.totals.budget_messages (file_rows source);
    };
    budget_code = some row_budget_exceeded;
  }

  abbrev pub stop_task : Progress → Progress
  stop_task p = record p {
    totals = record p.totals {
      budget_exceeded = true;
      budget_messages = append_to p.totals.budget_messages BudgetMessage.task_rows;
      task_stopped = true;
    };
    budget_code = some row_budget_exceeded;
  }

  -- The loop over the rows. The flag says whether the reader raised: it may do so only where the
  -- loop asks it for more.
  unfoldable pub read_rows : Bool → List CsvRow → Progress → Result TimeError (Progress × Bool)
  unfolding read_row
  read_rows breaks [] p = ok (p, breaks)
  read_rows breaks (row ∷ rest) p =
      let skip = read_rows breaks rest p in
      let onward = (do next ← read_row row p; read_rows breaks rest next) in
      if is_blank row.cells
      then skip
      else if leb budgets.max_file_rows p.rows
      then ok (stop_file p, false)
      else if leb budgets.max_task_rows p.totals.task_rows
      then ok (stop_task p, false)
      else onward

  abbrev pub status_of : Option FileError → FileStatus
  status_of none = matched
  status_of (some e) = budget_exceeded

  -- The result of a file whose rows were read, or whose reader raised.
  unfoldable pub close_file : Progress × Bool → Totals
  close_file (p, raised) = record p.totals {
    files = append_to p.totals.files (record {
      source_file = source;
      status = (if raised then failed else status_of p.budget_code);
      rows = p.rows;
      valid_rows = p.valid;
      excluded_rows = p.excluded;
      duplicate_rows = p.duplicates;
      error_code = (if raised then some format_invalid else p.budget_code);
    });
  }

  abbrev pub tally_all : List Text → AlarmQuality → AlarmQuality
  tally_all [] q = q
  tally_all (h ∷ rest) q = tally_all rest (record q { unknown_headers = tally h q.unknown_headers })

  unfoldable pub open_file : Totals → Progress
  open_file t = record {
    totals = record t { quality = tally_all header.unknown t.quality };
    rows = 0;
    valid = 0;
    excluded = 0;
    duplicates = 0;
    budget_code = none;
  }

-- A file of which no row is read.
abbrev pub no_rows : Text → FileStatus → FileError → AlarmFileResult
no_rows source status code = record {
  source_file = source;
  status = status;
  rows = 0;
  valid_rows = 0;
  excluded_rows = 0;
  duplicate_rows = 0;
  error_code = some code;
}

abbrev pub add_result : Totals → AlarmFileResult → Totals
add_result t r = record t { files = append_to t.files r }

module _ (lib : Library) (budgets : Budgets) where
  unfoldable pub read_table :
      Text → List Text → List CsvRow → Bool → Totals → Result TimeError Totals
  unfolding resolve_header has_required read_rows close_file open_file
  read_table source raw_headers rows breaks t =
      if has_required (resolve_header lib.lower raw_headers)
      then (do
        read ←
            read_rows lib budgets source raw_headers breaks rows
              (open_file lib budgets source raw_headers t)
        ok (close_file lib budgets source raw_headers read))
      else ok (add_result t (no_rows source failed format_invalid))

  unfoldable pub read_content : Text → Content → Totals → Result TimeError Totals
  unfolding read_table
  read_content source unreadable t = ok (add_result t (no_rows source failed format_invalid))
  read_content source undecodable t = ok (add_result t (no_rows source failed encoding_error))
  read_content source bad_header t = ok (add_result t (no_rows source failed format_invalid))
  read_content source empty t = ok (add_result t (no_rows source failed format_invalid))
  read_content source (table raw_headers rows breaks) t =
      read_table source raw_headers rows breaks t

  unfoldable pub read_sized : Source → Option ℕ → Totals → Result TimeError Totals
  unfolding read_content
  read_sized s none t = ok (add_result t (no_rows s.name failed format_invalid))
  read_sized s (some size) t =
      if ltb budgets.max_file_bytes size
      then ok (record t {
        files = append_to t.files (no_rows s.name FileStatus.budget_exceeded file_too_large);
        budget_exceeded = true;
        budget_messages = append_to t.budget_messages (file_size s.name);
      })
      else read_content s.name s.content t

  -- `if task_stopped`, and what follows it.
  unfoldable pub read_unless : Bool → Source → Totals → Result TimeError Totals
  unfolding read_sized
  read_unless true s t =
      ok (add_result t (no_rows s.name FileStatus.budget_exceeded row_budget_exceeded))
  read_unless false s t = read_sized s s.size t

  unfoldable pub read_file : Source → Totals → Result TimeError Totals
  unfolding read_unless
  read_file s t = read_unless t.task_stopped s t

  unfoldable pub read_files : List Source → Totals → Result TimeError Totals
  unfolding read_file
  read_files [] t = ok t
  read_files (s ∷ rest) t = do next ← read_file s t; read_files rest next
