-- ===== src/Log/Loggers/Manager.antt =====
-- What the manager of src/log.cc guarantees of the loggers that it hands out.
use async_rpc.Base.{ℕ, zero, suc, ◌+◌, ◌%◌, ◌^◌, ltb, Bool, true, false, All}
use async_rpc.Base.{
  List, [], ◌∷◌, length, get_elem?, set, get_elem?-snoc, get_elem?-front, Option, none, some,
}
use async_rpc.Base.{Result, ok, ◌≡◌, refl, ap, ◌∙◌, inl, inr, Bool-cases}
use async_rpc.Base.Dict.{text_key, find, find-assign_self}
use async_rpc.Base.Texts.{codes}
use async_rpc.Log.{Level, level_code, LogEvent, FormatItem}
use async_rpc.Log.Loggers.{
  Appender, Target, std_out, file, Logger, World, LoggerManager, append_to, appender_log, log_all,
  dispatch, log, print_line, reopen, get_instance, instance_of, new_logger, new_manager,
}

-- The appender is there and has a formatter.
abbrev pub HasFormat : List Appender → ℕ → Type 0
HasFormat ps a =
    (p : Appender) × (items : List FormatItem) × (get_elem? ps a ≡ some p)
    × (p.formater ≡ some items)

abbrev pub no_appender : List ℕ → Bool
no_appender [] = true
no_appender (a ∷ rest) = false

-- The root has an appender, every logger without one leads to the root, and every appender of a
-- logger has a formatter.
pub record IsValid (m : LoggerManager) (w : World) : Type 0 where
  pub root_logger : Logger
  pub root_there : get_elem? w.loggers m.root ≡ some root_logger
  pub root_busy : no_appender root_logger.appender ≡ false
  pub rooted :
      (l : ℕ) (g : Logger)
      → get_elem? w.loggers l ≡ some g
      → no_appender g.appender ≡ true
      → g.root ≡ some m.root
  pub formatted :
      (l : ℕ) (g : Logger) → get_elem? w.loggers l ≡ some g → All (HasFormat w.appenders) g.appender

-- What logging keeps: the loggers, and the formatters of appenders.
pub record Kept (w w' : World) : Type 0 where
  pub same_loggers : w'.loggers ≡ w.loggers
  pub same_formats : (a : ℕ) → HasFormat w.appenders a → HasFormat w'.appenders a

set-HasFormat :
    (ps : List Appender) (i j : ℕ) (p : Appender) {items : List FormatItem}
    → p.formater ≡ some items
    → HasFormat ps j
    → HasFormat (set ps i p) j
set-HasFormat [] i j p h k = k
set-HasFormat (q ∷ ps) zero zero p {items = items} h k = (p, items, refl, h)
set-HasFormat (q ∷ ps) zero (suc j) p h k = k
set-HasFormat (q ∷ ps) (suc i) zero p h k = k
set-HasFormat (q ∷ ps) (suc i) (suc j) p h k = set-HasFormat ps i j p h k

Kept-refl : (w : World) → Kept w w
Kept-refl w = record { same_loggers = refl; same_formats = λ a h. h }

Kept-trans : {w w' w'' : World} → Kept w w' → Kept w' w'' → Kept w w''
Kept-trans k l = record {
  same_loggers = l.same_loggers ∙ k.same_loggers;
  same_formats = λ a h. l.same_formats a (k.same_formats a h);
}

All-imp : {P Q : ℕ → Type 0} (xs : List ℕ) → ((x : ℕ) → P x → Q x) → All P xs → All Q xs
All-imp [] h k = tt
All-imp (x ∷ xs) h k = (h x k.0, All-imp xs h k.1)

module _ (strftime : List ℕ → ℕ → List ℕ) (now : ℕ) (level : Level) (event : LogEvent) where
  print_line-Kept :
      (items : List FormatItem) (w : World) → Kept w (print_line strftime items level event w)
  unfolding print_line
  print_line-Kept items w = record { same_loggers = refl; same_formats = λ a h. h }

  reopen-Kept :
      (name : List ℕ) (a : ℕ) (p : Appender) (w : World) {items : List FormatItem}
      → p.formater ≡ some items
      → Kept w (reopen now name a p w)
  unfolding reopen
  reopen-Kept name a p w h = record {
    same_loggers = refl;
    same_formats = λ j k. set-HasFormat w.appenders a j _ h k;
  }

  append_to-Kept :
      (target : Target) (a : ℕ) (p : Appender) (w : World) {items : List FormatItem}
      → p.formater ≡ some items
      → (w' : World) × (append_to strftime now target a p level event w ≡ ok w') × Kept w w'
  unfolding append_to
  append_to-Kept std_out a p w {items = items} h =
      (print_line strftime items level event w, rw h refl, print_line-Kept items w)
  append_to-Kept (file name last_time) a p w h =
      elim (Bool-cases (ltb ((last_time + 3) % 2 ^ 64) now)) [
        | inl late ↦ (reopen now name a p w, rw (h, late) refl, reopen-Kept name a p w h)
        | inr soon ↦ (w, rw (h, soon) refl, Kept-refl w)
      ]

  appender_log-Kept :
      (a : ℕ) (w : World)
      → HasFormat w.appenders a
      → (w' : World) × (appender_log strftime now a level event w ≡ ok w') × Kept w w'
  unfolding appender_log
  appender_log-Kept a w (p, items, there, h) =
      elim (Bool-cases (ltb (level_code level) (level_code p.level))) [
        | inl low ↦ (w, rw (there, low) refl, Kept-refl w)
        | inr high ↦ let (w', e, k) = append_to-Kept p.target a p w h in (w', rw (there, high) e, k)
      ]

  log_all-Kept :
      (as' : List ℕ) (w : World)
      → All (HasFormat w.appenders) as'
      → (w' : World) × (log_all strftime now as' level event w ≡ ok w') × Kept w w'
  unfolding log_all
  log_all-Kept [] w h = (w, refl, Kept-refl w)
  log_all-Kept (a ∷ rest) w h =
      let (w₁, e₁, k₁) = appender_log-Kept a w h.0 in
      let (w₂, e₂, k₂) = log_all-Kept rest w₁ (All-imp rest k₁.same_formats h.1) in
      (w₂, rw e₁ e₂, Kept-trans k₁ k₂)

  dispatch-Kept :
      (again : ℕ → Option (Result World)) (rest : List ℕ) (root : Option ℕ) (w : World)
      → no_appender rest ≡ false
      → All (HasFormat w.appenders) rest
      → (w' : World) × (dispatch strftime now again rest root level event w ≡ some (ok w'))
        × Kept w w'
  unfolding dispatch
  dispatch-Kept again [] root w busy h = cc
  dispatch-Kept again (a ∷ rest) root w busy h =
      let (w', e, k) = log_all-Kept (a ∷ rest) w h in (w', ap some e, k)

  dispatch-root :
      (again : ℕ → Option (Result World)) (rest : List ℕ) (root : ℕ) (w : World)
      → no_appender rest ≡ true
      → dispatch strftime now again rest (some root) level event w ≡ again root
  unfolding dispatch
  dispatch-root again [] root w idle = refl
  dispatch-root again (a ∷ rest) root w idle = cc

  log-low :
      (fuel l : ℕ) (g : Logger) (w : World)
      → get_elem? w.loggers l ≡ some g
      → ltb (level_code level) (level_code g.level) ≡ true
      → log strftime now (suc fuel) l level event w ≡ some (ok w)
  unfolding log
  log-low fuel l g w there low = rw (there, low) refl

  log-high :
      (fuel l : ℕ) (g : Logger) (w : World)
      → get_elem? w.loggers l ≡ some g
      → ltb (level_code level) (level_code g.level) ≡ false
      → log strftime now (suc fuel) l level event w
        ≡ dispatch strftime now
            (λ root. log strftime now fuel root level event w)
            g.appender
            g.root
            level
            event
            w
  unfolding log
  log-high fuel l g w there high = rw (there, high) refl

  -- A logger without appenders asks the root.
  log-idle :
      (fuel l root : ℕ) (g : Logger) (w : World)
      → get_elem? w.loggers l ≡ some g
      → no_appender g.appender ≡ true
      → g.root ≡ some root
      → ltb (level_code level) (level_code g.level) ≡ false
      → log strftime now (suc fuel) l level event w ≡ log strftime now fuel root level event w
  log-idle fuel l root g w there idle up high =
      log-high fuel l g w there high
      ∙ ap
          (λ r.
            dispatch strftime now (λ i. log strftime now fuel i level event w) g.appender r level
              event w)
          up
      ∙ dispatch-root (λ r. log strftime now fuel r level event w) g.appender root w idle

  -- The root logger needs no second one.
  log-busy :
      (fuel l : ℕ) (g : Logger) (w : World)
      → get_elem? w.loggers l ≡ some g
      → no_appender g.appender ≡ false
      → All (HasFormat w.appenders) g.appender
      → (w' : World) × (log strftime now (suc fuel) l level event w ≡ some (ok w')) × Kept w w'
  log-busy fuel l g w there busy h =
      elim (Bool-cases (ltb (level_code level) (level_code g.level))) [
        | inl low ↦ (w, log-low fuel l g w there low, Kept-refl w)
        | inr high ↦
            let (w', e, k) = dispatch-Kept _ g.appender g.root w busy h in
            (w', log-high fuel l g w there high ∙ e, k)
      ]

  -- Where the root logger has an appender, every logger without one leads to the root, and every
  -- appender of a logger has a formatter: to log any event to any logger returns within two calls
  -- of Log, without a null pointer, and keeps the loggers and which appenders have formatters.
  pub log-Kept :
      (m : LoggerManager) (w : World) (l : ℕ) (g : Logger)
      → IsValid m w
      → get_elem? w.loggers l ≡ some g
      → (w' : World) × (log strftime now 2 l level event w ≡ some (ok w')) × Kept w w'
  log-Kept m w l g v there = elim (Bool-cases (no_appender g.appender)) [
    | inl idle ↦ elim (Bool-cases (ltb (level_code level) (level_code g.level))) [
      | inl low ↦ (w, log-low 1 l g w there low, Kept-refl w)
      | inr high ↦
          let (w', e, k) =
            log-busy 0 m.root v.root_logger w v.root_there v.root_busy
              (v.formatted m.root v.root_logger v.root_there) in
          (w', log-idle 1 l m.root g w there idle (v.rooted l g there idle) high ∙ e, k)
    ]
    | inr busy ↦ log-busy 1 l g w there busy (v.formatted l g there)
  ]

module _ (name : List ℕ) (m : LoggerManager) (w : World) where
  -- The manager and the loggers behind GetInstance.
  abbrev pub manager_behind : LoggerManager
  manager_behind = (get_instance name m w).1

  abbrev pub world_behind : World
  world_behind = (get_instance name m w).2

  new-IsValid : IsValid m w → IsValid (instance_of none name m w).1 (instance_of none name m w).2
  unfolding new_logger
  new-IsValid v = record {
    root_logger = v.root_logger;
    root_there = get_elem?-front w.loggers _ m.root v.root_there;
    root_busy = v.root_busy;
    rooted = λ l g h idle. elim (get_elem?-snoc w.loggers _ g l h) [
      | inl old ↦ v.rooted l g old idle
      | inr new ↦ ap (λ (x : Logger). x.root) new
    ];
    formatted = λ l g h. elim (get_elem?-snoc w.loggers _ g l h) [
      | inl old ↦ v.formatted l g old
      | inr new ↦ rw new tt
    ];
  }

  instance-IsValid :
      (o : Option ℕ) → IsValid m w → IsValid (instance_of o name m w).1 (instance_of o name m w).2
  instance-IsValid none v = new-IsValid v
  instance-IsValid (some l) v = v

  instance-found :
      (o : Option ℕ)
      → find name m.logger_map ≡ o
      → find name (instance_of o name m w).1.logger_map ≡ some (instance_of o name m w).0
  instance-found none h = find-assign_self name (length w.loggers) m.logger_map
  instance-found (some l) h = h

  pub get_instance-IsValid : IsValid m w → IsValid manager_behind world_behind
  unfolding get_instance
  get_instance-IsValid v = instance-IsValid (find name m.logger_map) v

  -- A second getInstance of a name gives the logger of the first one and changes nothing.
  pub get_instance_twice :
      get_instance name manager_behind world_behind
      ≡ ((get_instance name m w).0, manager_behind, world_behind)
  unfolding get_instance
  get_instance_twice =
      ap (λ o. instance_of o name manager_behind world_behind)
        (instance-found (find name m.logger_map) refl)

root_only : {g h : Logger} (l : ℕ) → get_elem? (h ∷ []) l ≡ some g → g ≡ h
root_only {g} {h} l e = elim (get_elem?-snoc [] h g l e) [ inl old ↦ cc | inr new ↦ new ]

pub new_manager-IsValid : IsValid new_manager.0 new_manager.1
unfolding new_manager new_logger
new_manager-IsValid = record {
  root_logger = record (new_logger (codes "root")) { appender = 0 ∷ [] };
  root_there = refl;
  root_busy = refl;
  rooted = λ l g h idle. cc (ap (λ (x : Logger). no_appender x.appender) (root_only l h));
  formatted = λ l g h. rw (root_only l h) ((_, _, refl, refl), tt);
}
