-- ===== src/Daemon/Watcher.antt =====
-- The loop of watchConfig in internal/daemon/daemon.go: events of the config directory, and a timer that
-- a change sets back. Times are natural numbers of nanoseconds. The reload itself is
-- Daemon.Lifecycle.reload; here only the time counts at which it begins.
use locksmith.Common.{
  ℕ, ◌+◌, ◌≤◌, ◌≡◌, ◌⊎◌, Bool, not, ◌&&◌, ◌||◌, Option, none, some, if◌then◌else◌,
}
use locksmith.Common.Text.{Text, text_eq}

-- An event of fsnotify.
pub record FsEvent : Type 0 where
  pub name : Text
  pub is_write : Bool
  pub is_create : Bool
  pub is_rename : Bool

-- The loop's state: the time, when the timer is due, if it runs, and when a reload last began.
pub record Watch : Type 0 where
  pub now : ℕ
  pub due : Option ℕ
  pub reloaded_at : Option ℕ

-- Before the loop the timer is stopped.
unfoldable pub begin_watch : ℕ → Watch
begin_watch now = record { now = now; due = none; reloaded_at = none }

-- debounce.Reset(d.watchDebounce)
unfoldable pub reset : ℕ → Watch → Watch
reset debounce w = record w { due = some (w.now + debounce) }

-- The case of an event.
unfoldable pub on_event : Text → ℕ → FsEvent → Watch → Watch
on_event cfg_path debounce e w =
    if not (text_eq e.name cfg_path)
    then w
    else if not e.is_write && (not e.is_create && not e.is_rename)
    then w
    else reset debounce w

-- The case of the timer.
unfoldable pub on_timer : Watch → Watch
on_timer w = record w { due = none; reloaded_at = some w.now }

unfoldable pub pass : ℕ → Watch → Watch
pass time w = record w { now = w.now + time }

-- The event reports a change of the configuration file.
unfoldable pub is_change : Text → FsEvent → Bool
is_change cfg_path e = text_eq e.name cfg_path && (e.is_write || (e.is_create || e.is_rename))

-- The loop and, beside it, when the file last changed, which the events say and not the loop.
pub record Scene : Type 0 where
  pub watch : Watch
  pub changed_at : Option ℕ

module _ (cfg_path : Text) (debounce : ℕ) where
  -- What may happen next: time passes, an event comes, or the timer fires once it is due. An error of
  -- the watcher changes nothing.
  pub data Step : Scene → Scene → Type 0 where
    passes : {s : Scene} (time : ℕ) → Step s (record s { watch = pass time s.watch })
    receives :
        {s : Scene} (e : FsEvent)
        → Step s (record {
          watch = on_event cfg_path debounce e s.watch;
          changed_at = if is_change cfg_path e then some s.watch.now else s.changed_at;
        })
    fires :
        {s : Scene} (t : ℕ)
        → s.watch.due ≡ some t
        → t ≤ s.watch.now
        → Step s (record s { watch = on_timer s.watch })

  pub data Reachable : Scene → Type 0 where
    begins : (now : ℕ) → Reachable (record { watch = begin_watch now; changed_at = none })
    steps : {s s' : Scene} → Reachable s → Step s s' → Reachable s'

  pub record IsDebounced (s : Scene) : Type 0 where
    pub quiet :
        (t : ℕ) → s.watch.due ≡ some t → (c : ℕ) × (s.changed_at ≡ some c) × (t ≡ c + debounce)
    pub not_lost :
        (c : ℕ)
        → s.changed_at ≡ some c
        → (s.watch.due ≡ some (c + debounce))
          ⊎ ((r : ℕ) × (s.watch.reloaded_at ≡ some r) × (c + debounce ≤ r))
