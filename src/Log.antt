-- ===== src/Log.antt =====
-- src/log.cc and include/log.h: levels, events, and the formatter with its parser of patterns. The
-- loggers and appenders are the child Loggers.
pub mod Pattern
pub mod Loggers
use mathlib.Core.Option
use async_rpc.Base.{ℕ, zero, suc, ◌+◌, leb, ◌==◌, if◌then◌else◌, Bool, true, false, ◌||◌}
use async_rpc.Base.{List, [], ◌∷◌, ◌++◌, take, Option, none, some}
use async_rpc.Base.Dict.{Key, text_key, same}
use async_rpc.Base.Texts.{codes}
use async_rpc.Address.{decimal}

pub data Level : Type 0 where
  debug info warn error fatal unknow : Level

-- The number of an enumerator.
abbrev pub level_code : Level → ℕ
level_code debug = 0
level_code info = 1
level_code warn = 2
level_code error = 3
level_code fatal = 4
level_code unknow = 5

unfoldable pub level_to_string : Level → List ℕ
level_to_string debug = codes "DEBUG"
level_to_string info = codes "INFO"
level_to_string warn = codes "WARN"
level_to_string error = codes "ERROR"
level_to_string fatal = codes "FATAL"
level_to_string unknow = codes "UNKOWN"

unfoldable pub string_to_level : List ℕ → Level
string_to_level text =
    if same text (codes "DEBUG") || same text (codes "debug")
    then debug
    else if same text (codes "INFO") || same text (codes "info")
    then info
    else if same text (codes "WARN") || same text (codes "warn")
    then warn
    else if same text (codes "ERROR") || same text (codes "error")
    then error
    else if same text (codes "FATAL") || same text (codes "fatal")
    then fatal
    else unknow

-- LogEvent, with the name of its logger and the text that its stream holds.
pub record LogEvent : Type 0 where
  pub logger_name : List ℕ
  pub level : Level
  pub file : List ℕ
  pub line : ℕ
  pub timestamp : ℕ
  pub thread_id : ℕ
  pub fiber_id : ℕ
  pub thread_name : List ℕ
  pub content : List ℕ

-- The classes derived from FormatItem, with the text that they keep.
pub data FormatItem : Type 0 where
  date_time : List ℕ → FormatItem
  string : List ℕ → FormatItem
  level_item tab log_name thread_id_item thread_name_item file_name line_item : FormatItem
  message new_line fiber_id_item : FormatItem

-- DataTimeFormatItem's constructor.
unfoldable pub date_time_item : List ℕ → FormatItem
date_time_item [] = date_time (codes "%Y-%m-%d %H:%M:%S")
date_time_item (c ∷ cs) = date_time (c ∷ cs)

-- itemMap; none of the items but that of 'd' keeps the text that it is made with.
unfoldable pub item_map : ℕ → List ℕ → Option FormatItem
item_map c str =
    if c == b'd'
    then some (date_time_item str)
    else if c == b'T'
    then some tab
    else if c == b'p'
    then some level_item
    else if c == b'c'
    then some log_name
    else if c == b't'
    then some thread_id_item
    else if c == b'N'
    then some thread_name_item
    else if c == b'f'
    then some file_name
    else if c == b'l'
    then some line_item
    else if c == b'm'
    then some message
    else if c == b'n'
    then some new_line
    else if c == b'F'
    then some fiber_id_item
    else none

-- operator<< of an unsigned number of 32 bits.
abbrev pub digits : ℕ → List ℕ
digits n = decimal 9 n

-- FormatItem::format: what the item sends to the stream. `strftime` is localtime_r and strftime with
-- a pattern at a time, into the buffer of 64 bytes.
unfoldable pub format_item : (List ℕ → ℕ → List ℕ) → Level → LogEvent → FormatItem → List ℕ
format_item strftime level event (date_time pattern) = strftime pattern event.timestamp
format_item strftime level event (string str) = str
format_item strftime level event level_item = level_to_string level
format_item strftime level event tab = b'\t' ∷ []
format_item strftime level event log_name = event.logger_name
format_item strftime level event thread_id_item = digits event.thread_id
format_item strftime level event thread_name_item = event.thread_name
format_item strftime level event file_name = event.file
format_item strftime level event line_item = digits event.line
format_item strftime level event message = event.content
format_item strftime level event new_line = b'\n' ∷ []
format_item strftime level event fiber_id_item = digits event.fiber_id

-- LogFormatter::format
unfoldable pub format : (List ℕ → ℕ → List ℕ) → Level → LogEvent → List FormatItem → List ℕ
format strftime level event [] = []
format strftime level event (item ∷ items) =
    format_item strftime level event item ++ format strftime level event items

-- find_first_of of one character: its index, or none for npos.
unfoldable pub find_first_of : ℕ → List ℕ → Option ℕ
find_first_of b [] = none
find_first_of b (x ∷ xs) =
    let rest = find_first_of b xs in if x == b then some 0 else Option.map suc rest

-- What a directive adds to the items, and how far it moves the index past the '%'.
abbrev pub Directive : Type 0
Directive = List FormatItem × ℕ

abbrev pub error_item : FormatItem
error_item = string (codes "<error format %>")

-- A directive but %d.
abbrev pub item_or_error : ℕ → Option FormatItem → FormatItem
item_or_error c none = string (codes "<error format %" ++ (c ∷ codes ">"))
item_or_error c (some item) = item

-- Behind "%d{", by the index of the '}'. Without one, the index stays at the first character.
abbrev pub closed_by : List ℕ → Option ℕ → Directive
closed_by cs none = (string (codes "<error format %d{" ++ (cs ++ codes " >")) ∷ [], 3)
closed_by cs (some n) = (date_time_item (take n cs) ∷ [], n + 3)

unfoldable pub braces : List ℕ → Directive
braces [] = (error_item ∷ [], 2)
braces (c ∷ cs) = closed_by (c ∷ cs) (find_first_of b'}' (c ∷ cs))

-- Behind "%d".
unfoldable pub date : List ℕ → Directive
date [] = ([], 1)
date (c ∷ cs) = if c == b'{' then braces cs else (date_time_item [] ∷ [], 1)

-- Behind '%'.
unfoldable pub directive : List ℕ → Directive
directive [] = (error_item ∷ [], 0)
directive (c ∷ cs) = if c == b'd' then date cs else (item_or_error c (item_map c (c ∷ [])) ∷ [], 1)

-- The loop of init: the items that it adds, and `str`. The index moves past `skip` characters first.
unfoldable pub parse : (skip : ℕ) → List ℕ → List ℕ → List FormatItem × List ℕ
parse skip [] str = ([], str)
parse (suc skip) (c ∷ cs) str = parse skip cs str
parse zero (c ∷ cs) str =
    let plain = parse zero cs (str ++ c ∷ []) in
    let behind = directive cs in
    let rest = parse behind.1 cs str in if c == b'%' then (behind.0 ++ rest.0, rest.1) else plain

-- LogFormatter::LogFormatter with init: format_item_.
unfoldable pub init : List ℕ → List FormatItem
init pattern = (parse 0 pattern []).0
