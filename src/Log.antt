-- ===== src/Log.antt =====
-- kernel/log.c: the audit log, a ring of lines. The copy of each message to the debug port is not
-- modelled. A line is the C string in its buffer.
pub mod Ring
mod Tests
use hypnos.Base.{
  ℕ, zero, suc, ◌+◌, ◌-◌, ◌%◌, Option, none, some, List, [], ◌∷◌, ltb, if◌then◌else◌, get_or, set,
  replicate,
}
use hypnos.CStr.{CString}

-- LOG_MAX_LINES
abbrev pub log_max_lines : ℕ
log_max_lines = 128

-- LOG_LINE_LEN
abbrev pub log_line_len : ℕ
log_line_len = 80

pub record Log : Type 0 where
  pub log_buf : List CString
  pub log_head : ℕ
  pub log_count : ℕ

-- The loop of `l_strncpy`, with `max_len - 1 - i` rounds left.
copy_bytes : CString → ℕ → CString
copy_bytes src zero = []
copy_bytes [] (suc room) = []
copy_bytes (c ∷ src) (suc room) = c ∷ copy_bytes src room

-- `l_strncpy` into a buffer of `max_len` bytes, at least one.
unfoldable pub l_strncpy : CString → ℕ → CString
unfolding copy_bytes
l_strncpy src max_len = copy_bytes src (max_len - 1)

unfoldable pub log_init : Log → Log
log_init l = record l { log_head = 0; log_count = 0 }

-- The variables before the first call.
abbrev pub unused : Log
unused = record { log_buf = replicate log_max_lines []; log_head = 0; log_count = 0 }

-- A null message is `none`.
unfoldable pub log_event : Option CString → Log → Log
log_event none l = l
log_event (some msg) l = record {
  log_buf = set l.log_buf l.log_head (l_strncpy msg log_line_len);
  log_head = (l.log_head + 1) % log_max_lines;
  log_count = if ltb l.log_count log_max_lines then l.log_count + 1 else l.log_count;
}

-- The lines of the loop of `log_dump` from `i` on, with `rounds` rounds left.
unfoldable pub dump_from : List CString → ℕ → ℕ → ℕ → List CString
dump_from buf start i zero = []
dump_from buf start i (suc rounds) =
    get_or buf ((start + i) % log_max_lines) [] ∷ dump_from buf start (i + 1) rounds

-- The lines that `log_dump` writes between its first and its last.
unfoldable pub log_dump : Log → List CString
log_dump l =
    dump_from l.log_buf ((l.log_head + log_max_lines - l.log_count) % log_max_lines) 0 l.log_count
