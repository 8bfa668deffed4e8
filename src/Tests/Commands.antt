-- ===== src/Tests/Commands.antt =====
-- Runs of the theorems on the commands that change rules.
use omihomo.Base.{true, ◌≡◌, refl}
use omihomo.Protocol.{Entries, entry, no_category, category, nil, cons}
use omihomo.Engine.{no_profile}
use omihomo.Daemon.Compile.{compile_rules}
use omihomo.Cli.Entries.{category_at}
use omihomo.Cli.Rules.{ApplyArgs, ungroup}
use omihomo.Cli.Rules.Ungroup.{ungroup-effective}
use omihomo.Tests.{match_direct, global_mode}

abbrev grouped : Entries
grouped = cons (entry match_direct no_category) (
    cons
      (entry (record match_direct { disabled = true })
        (category "c1" "off" (cons (entry match_direct no_category) nil)))
      nil)

abbrev ungrouped : Entries
ungrouped =
    cons (entry match_direct no_category)
      (cons (entry (record match_direct { disabled = true }) no_category) nil)

abbrev before : ApplyArgs
before = record { settings = global_mode.settings; rules = grouped }

abbrev after : ApplyArgs
after = record { settings = global_mode.settings; rules = ungrouped }

ungroup-effective_example :
    (compile_rules ungrouped no_profile).effective ≡ (compile_rules grouped no_profile).effective
unfolding ungroup category_at omihomo.Cli.Entries.category_from
ungroup-effective_example = ungroup-effective "c1" before after no_profile (tt, tt) refl
