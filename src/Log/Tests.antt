-- ===== src/Log/Tests.antt =====
-- Runs of the log, and its theorems at concrete messages.
use hypnos.Base.{◌≡◌, refl, some, [], ◌∷◌, ◌++◌, arith}
use hypnos.CStr.{CString}
use hypnos.Log.{unused, log_event, log_dump, dump_from, l_strncpy}
use hypnos.Log.Ring.{IsLog, log_dump-event, last_lines}

abbrev boot : CString
boot = b'u' ∷ b'p' ∷ []

unused-IsLog : IsLog unused
unused-IsLog = record { lines = refl; head_in = omega arith; count_in = omega arith }

two_events : log_dump (log_event (some boot) (log_event (some []) unused)) ≡ [] ∷ boot ∷ []
unfolding log_dump log_event dump_from l_strncpy
two_events = refl

log_dump-event_example :
    log_dump (log_event (some boot) unused) ≡ last_lines (log_dump unused ++ (boot ∷ []))
log_dump-event_example = log_dump-event boot unused unused-IsLog
