-- ===== src/Log/Loggers.antt =====
-- The loggers, their appenders and the manager of src/log.cc, on the objects that they share.
pub mod Manager
use async_rpc.Base.{ℕ, zero, suc, ◌+◌, ◌%◌, ◌^◌, ltb, leb, if◌then◌else◌, Bool, true, false}
use async_rpc.Base.{List, [], ◌∷◌, ◌++◌, length, get_elem?, set, Option, none, some}
use async_rpc.Base.{Result, ok, err, ◌>>=◌, null_pointer}
use async_rpc.Base.Dict.{Dict, text_key, find, assign}
use async_rpc.Base.Texts.{codes}
use async_rpc.Log.{
  Level, debug, info, warn, error, fatal, unknow, level_code, LogEvent, FormatItem, format, init,
}

-- StdOutLogAppender, and FileLogAppender with its file and last_time_.
pub data Target : Type 0 where
  std_out : Target
  file : (name : List ℕ) (last_time : ℕ) → Target

-- formater_ is none for a null pointer.
pub record Appender : Type 0 where
  pub level : Level
  pub formater : Option (List FormatItem)
  pub target : Target

-- appender_ holds addresses of appenders, root_ that of a logger.
pub record Logger : Type 0 where
  pub appender : List ℕ
  pub level : Level
  pub root : Option ℕ
  pub logger_name : List ℕ

-- The loggers and appenders by their address, what std::cout was sent, and the files opened.
pub record World : Type 0 where
  pub loggers : List Logger
  pub appenders : List Appender
  pub console : List (List ℕ)
  pub opened : List (List ℕ)

-- The default pattern.
abbrev pub default_pattern : List ℕ
default_pattern = codes "%d{%Y-%m-%d:%H:%M:%S}%T[ %p%T]%T[%c]%T%t%T%N%T%F%T%T%f:%l%T%m%n"

unfoldable pub color : Level → List ℕ
color debug = 27 ∷ codes "[34m"
color info = []
color warn = 27 ∷ codes "[33m"
color error = 27 ∷ codes "[31m"
color fatal = 27 ∷ codes "[31m"
color unknow = []

-- A pointer that is used.
abbrev pub used : {A : Type 0} → Option A → Result A
used none = err null_pointer
used (some a) = ok a

-- The line that StdOutLogAppender prints.
unfoldable pub print_line :
    (List ℕ → ℕ → List ℕ) → List FormatItem → Level → LogEvent → World → World
print_line strftime items level event w = record w {
  console =
      w.console
      ++ (color level ++ (format strftime level event items ++ (27 ∷ codes "[0m\n"))) ∷ [];
}

-- reopen and the new last_time_.
unfoldable pub reopen : ℕ → List ℕ → ℕ → Appender → World → World
reopen now name a p w = record w {
  appenders = set w.appenders a (record p { target = file name now });
  opened = w.opened ++ name ∷ [];
}

-- `strftime` is as in format; `now` is time(0).
module _ (strftime : List ℕ → ℕ → List ℕ) (now : ℕ) where
  -- LogAppender::Log past the test of the level: StdOutLogAppender prints the line, FileLogAppender
  -- opens its file again after three seconds, and drops the line that it formats.
  unfoldable pub append_to : Target → ℕ → Appender → Level → LogEvent → World → Result World
  append_to std_out a p level event w = do
    items ← used p.formater
    ok (print_line strftime items level event w)
  append_to (file name last_time) a p level event w = do
    items ← used p.formater
    ok (if ltb ((last_time + 3) % 2 ^ 64) now then reopen now name a p w else w)

  unfoldable pub appender_log : ℕ → Level → LogEvent → World → Result World
  appender_log a level event w = do
    p ← used (get_elem? w.appenders a)
    if ltb (level_code level) (level_code p.level)
        then ok w
        else append_to p.target a p level event w

  -- The loop over appender_.
  unfoldable pub log_all : List ℕ → Level → LogEvent → World → Result World
  log_all [] level event w = ok w
  log_all (a ∷ rest) level event w = do
    w' ← appender_log a level event w
    log_all rest level event w'

  abbrev pub log_root : (ℕ → Option (Result World)) → Option ℕ → Option (Result World)
  log_root again none = some (err null_pointer)
  log_root again (some root) = again root

  -- Past the test of the level: the root is asked when there is no appender.
  unfoldable pub dispatch :
      (ℕ → Option (Result World))
      → List ℕ
      → Option ℕ
      → Level
      → LogEvent
      → World
      → Option (Result World)
  dispatch again [] root level event w = log_root again root
  dispatch again (a ∷ rest) root level event w = some (log_all (a ∷ rest) level event w)

  abbrev pub log_at :
      (ℕ → Option (Result World)) → Option Logger → Level → LogEvent → World → Option (Result World)
  log_at again none level event w = some (err null_pointer)
  log_at again (some g) level event w =
      if ltb (level_code level) (level_code g.level)
      then some (ok w)
      else dispatch again g.appender g.root level event w

  -- Logger::Log on fuel, for the way through root_: none when the fuel is used up.
  unfoldable pub log : ℕ → ℕ → Level → LogEvent → World → Option (Result World)
  log zero l level event w = none
  log (suc fuel) l level event w =
      log_at (λ root. log fuel root level event w) (get_elem? w.loggers l) level event w

abbrev with_appender : Logger → Option ℕ → Logger
with_appender g none = g
with_appender g (some a) = record g { appender = g.appender ++ a ∷ [] }

-- Logger::AddAppender, with none for a null pointer.
unfoldable pub add_appender : ℕ → Option ℕ → World → Result World
add_appender l a w = do
  g ← used (get_elem? w.loggers l)
  ok (record w { loggers = set w.loggers l (with_appender g a) })

-- root_ and logger_map_.
pub record LoggerManager : Type 0 where
  pub root : ℕ
  pub logger_map : Dict (List ℕ) ℕ

-- Logger::Logger
unfoldable pub new_logger : List ℕ → Logger
new_logger name = record { appender = []; level = debug; root = none; logger_name = name }

-- LoggerManager::LoggerManager, where nothing was logged before.
unfoldable pub new_manager : LoggerManager × World
new_manager =
    let appender : Appender = record {
      level = debug;
      formater = some (init default_pattern);
      target = std_out;
    } in
    (
      record { root = 0; logger_map = (codes "root", 0) ∷ [] },
      record {
        loggers = record (new_logger (codes "root")) { appender = 0 ∷ [] } ∷ [];
        appenders = appender ∷ [];
        console = [];
        opened = [];
      },
    )

abbrev instance_of : Option ℕ → List ℕ → LoggerManager → World → ℕ × LoggerManager × World
instance_of (some l) name m w = (l, m, w)
instance_of none name m w = (
  length w.loggers,
  record m { logger_map = assign name (length w.loggers) m.logger_map },
  record w { loggers = w.loggers ++ record (new_logger name) { root = some m.root } ∷ [] },
)

-- GetInstance
unfoldable pub get_instance : List ℕ → LoggerManager → World → ℕ × LoggerManager × World
get_instance name m w = instance_of (find name m.logger_map) name m w
