-- ===== src/Util/Logging/Filter.antt =====
-- The levels of src/util/Logging.cpp.
use code_tribunal.Prelude.{◌≢◌, ◌≤◌, none, Text, arith}
use code_tribunal.Util.Logging.{LogLevel, rank, log}

-- What is written at a level is also written at every higher level.
pub log_mono :
    (min_level low high : LogLevel) (timestamp msg : Text)
    → rank low ≤ rank high
    → log min_level timestamp low msg ≢ none
    → log min_level timestamp high msg ≢ none
unfolding log
log_mono min_level low high timestamp msg h shown = ground (arith, shown)
