-- ===== src/Lsm/Error.antt =====
-- crates/lsm/src/error.rs. The texts of the messages are left out, and system calls that fail are
-- not modelled, so that `Exhausted` does not arise here.
use strata_db.Prelude.{Bool, true, false}
use strata_db.Journal.Log.{JournalError}

pub data WriteError : Type 0 where
  store_full : WriteError
  invalid_argument : WriteError
  internal : WriteError

pub data LsmError : Type 0 where
  write : WriteError → LsmError
  exhausted : LsmError
  internal : LsmError

-- `LsmError::is_exhausted`
unfoldable pub is_exhausted : LsmError → Bool
is_exhausted exhausted = true
is_exhausted (write WriteError.store_full) = true
is_exhausted _ = false

-- `From<WriteError> for LsmError`
unfoldable pub from_write_error : WriteError → LsmError
from_write_error WriteError.internal = LsmError.internal
from_write_error other = write other

-- `From<JournalError> for LsmError`
unfoldable pub from_journal_error : JournalError → LsmError
from_journal_error e = LsmError.internal

-- `into_write` of memstore/journal.rs
unfoldable pub into_write : JournalError → WriteError
into_write e = WriteError.internal
