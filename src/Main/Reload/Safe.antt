-- ===== src/Main/Reload/Safe.antt =====
-- A reload never installs a configuration that the checks refuse.
use chitchat.Base.{
  Str, Option, none, some, some≢none, List, [], ◌∷◌, ok, err, In, ◌≡◌, ◌⊎◌, inl, inr, refl,
}
use chitchat.Libraries.{Libraries}
use chitchat.Config.Types.{Config}
use chitchat.Broker.Driver.{Driver}
use chitchat.Engine.State.{Engine, new_rule_states}
use chitchat.Engine.Queues.{desired_queues}
use chitchat.Engine.Lifecycle.{reload}
use chitchat.Engine.Lifecycle.Reloads.{Keeps, Keeps-refl, Reloads, reload_lem}
use chitchat.Main.Check.{CheckError, Failure, check_config}
use chitchat.Main.Check.Exact.{IsSound, check_config_iff}
use chitchat.Main.Reload.{Outcome, Summary, summarize, apply_checked, reload_config}

module _ {D : Type 0} (drv : Driver D) (lib : Libraries) where
  -- The call fails and leaves rules, configuration and flags alone, or it succeeds and the engine
  -- has the configuration `next`, which is sound.
  abbrev pub Safe : Config → Engine D → Outcome D → Type 0
  Safe next e o =
      ((x : Failure) × (o.1 ≡ err x) × Keeps e o.0)
      ⊎ ((s : Summary) × (o.1 ≡ ok s)
          × IsSound lib next
          × (o.0.cfg ≡ next)
          × (o.0.rules ≡ new_rule_states next.rules)
          × ((q : Str) → In q (desired_queues next) → In q o.0.subscribed)
          × (o.0.spy ≡ e.spy))

  summarize-Safe :
      (next : Config) (warns log : List Str) (e : Engine D) (r : Engine D × Option Str)
      → IsSound lib next
      → Reloads drv lib.quote next e r
      → Safe next e (summarize drv lib next warns log r)
  unfolding summarize
  summarize-Safe next warns log e (e', none) sound (inl (x, h, k)) = absurd cc
  summarize-Safe next warns log e (e', none) sound (inr (h, s, r, c, rules, qs, old, spy)) =
      inr (_, refl, sound, c, rules, qs, spy)
  summarize-Safe next warns log e (e', some x) sound (inl (y, h, k)) = inl (_, refl, k)
  summarize-Safe next warns log e (e', some x) sound (inr w) = absurd (some≢none w.0)

  apply_checked-Safe :
      (current next : Config) (e : Engine D) (c : List Str × List CheckError)
      → (c.1 ≡ [] → IsSound lib next)
      → Safe next e (apply_checked drv lib current next e c)
  unfolding apply_checked
  apply_checked-Safe current next e (warns, []) sound =
      summarize-Safe next warns _ e (reload drv lib.quote next e) (sound refl)
        (reload_lem drv lib.quote next e)
  apply_checked-Safe current next e (warns, x ∷ xs) sound = inl (_, refl, Keeps-refl e)

  -- For a configuration that was read, reloadConfig fails and leaves the rules, the configuration,
  -- the flags and the pending responses of the engine as they were, or it succeeds, the
  -- configuration passes all checks, and the engine has it, with fresh counters and with all its
  -- queues subscribed. The spy's buffer is the same in both cases.
  pub reload_config-Safe :
      (current next : Config) (e : Engine D)
      → Safe next e (reload_config drv lib current (ok next) e)
  unfolding reload_config
  reload_config-Safe current next e =
      apply_checked-Safe current next e (check_config lib next) (check_config_iff lib next).0
