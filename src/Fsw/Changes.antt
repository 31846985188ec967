-- ===== src/Fsw/Changes.antt =====
-- flight/fsw_core.py: what the handlers share: changes of state, the boot counter's file and the
-- service manager.
use asterion_one.Base.{true, ℕ, some, [], ◌∷◌, ◌++◌, String, ◌<>◌, if◌then◌else◌}
use asterion_one.Json.{Fields, end, field, num, text}
use asterion_one.Models.{FswState, Severity, boot, nominal, safe, critical, state_value}
use asterion_one.Audit.{Platform, log}
use asterion_one.Floats.{Floats}
use asterion_one.Fsw.State.{BootFile, unreadable, counts, Notification, Core}

-- `_STATE_CODES`
abbrev pub state_code : FswState → ℕ
state_code boot = 0
state_code nominal = 1
state_code safe = 2
state_code critical = 3

-- `transition_map`
abbrev pub transition_code : FswState → FswState → String
transition_code boot nominal = "T1"
transition_code boot safe = "T2"
transition_code nominal safe = "T3"
transition_code safe nominal = "T5"
transition_code safe critical = "T6"
transition_code _ _ = "T?"

abbrev pub transition_severity : FswState → Severity
transition_severity safe = Severity.warning
transition_severity critical = Severity.critical
transition_severity _ = Severity.info

abbrev pub boot_count : BootFile → ℕ
boot_count unreadable = 0
boot_count (counts n) = n

module _ (p : Platform) (fl : Floats) where
  open fl use {Float}

  -- `self._audit.log(...)`, where only the logger changes.
  abbrev pub audited : String → Severity → String → Fields → Core Float → Core Float
  audited event_type severity description metadata c = record c {
    audit = (log p event_type severity description metadata c.audit).1;
  }

  unfoldable pub load_boot_counter : Core Float → ℕ
  load_boot_counter c = boot_count c.boot_file

  -- `except OSError: pass`
  unfoldable pub save_boot_counter : ℕ → Core Float → Core Float
  save_boot_counter n c = if c.boot_writable then record c { boot_file = counts n } else c

  abbrev pub transition_text : FswState → FswState → String → String
  transition_text old new reason =
      transition_code old new
      <> (": " <> (state_value old <> (" → " <> (state_value new <> (": " <> reason)))))

  abbrev pub transition_metadata : FswState → FswState → String → ℕ → Fields
  transition_metadata old new reason restarts =
      field "transition" (text (transition_code old new)) (
        field "from_state" (text (state_value old)) (
          field "to_state" (text (state_value new))
            (field "reason" (text reason) (field "wd_restarts" (num restarts) end))))

  abbrev notify_change : FswState → FswState → Core Float → Core Float
  notify_change old new c =
      if c.has_state_callback then record c { changes = c.changes ++ (old, new) ∷ [] } else c

  unfoldable pub transition_to : FswState → String → Core Float → Core Float
  transition_to new reason c =
      let old = c.state in
      notify_change old new (
        audited "STATE_TRANSITION" (transition_severity new) (transition_text old new reason)
          (transition_metadata old new reason c.wd_restarts)
          (record c { prev_state = some old; state = new }))

  -- `_notify_watchdog` and `_notify_watchdog_ready`; an `ImportError` is passed over.
  abbrev pub notified : Notification → Core Float → Core Float
  notified n c =
      if c.has_sdnotify then record c { notifications = c.notifications ++ n ∷ [] } else c

  abbrev pub set_telemetry_callback : Core Float → Core Float
  set_telemetry_callback c = record c { has_telemetry_callback = true }

  abbrev pub set_state_change_callback : Core Float → Core Float
  set_state_change_callback c = record c { has_state_callback = true }
