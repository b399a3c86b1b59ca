-- ===== src/Monitor.antt =====
-- internal/service/system/monitor.go: a snapshot of the host. What gopsutil answers is a parameter;
-- the percentages are in thousandths.
use mingyue_go.Base.{List, [], ℕ, ◌∷◌}
use mingyue_go.Errors.{wrapped, internal, lit, Result, ok, err}

-- mem.VirtualMemoryStat, the fields that are read
pub record MemoryStat : Type 0 where
  pub total : ℕ
  pub used : ℕ
  pub used_percent : ℕ

-- Collector; the percentages of cpu.PercentWithContext, one for the whole system.
pub record Collector : Type 0 where
  pub cpu_percents : Result (List ℕ)
  pub virtual_memory : Result MemoryStat
  pub uptime : Result ℕ

-- domain.HostSnapshot of internal/domain/snapshot.go
pub record HostSnapshot : Type 0 where
  pub timestamp : ℕ
  pub cpu_percent : ℕ
  pub mem_total : ℕ
  pub mem_used : ℕ
  pub mem_percent : ℕ
  pub uptime : ℕ

-- CPUPercent
abbrev first_percent : List ℕ → ℕ
first_percent [] = 0
first_percent (p ∷ ps) = p

-- Snapshot at the time `now`
unfoldable pub snapshot : Collector → ℕ → Result HostSnapshot
snapshot c now = elim c.cpu_percents [
  | err e ↦ err (wrapped internal (lit "failed to collect CPU usage" ∷ []) e)
  | ok percents ↦ elim c.virtual_memory [
    | err e ↦ err (wrapped internal (lit "failed to collect memory usage" ∷ []) e)
    | ok memory ↦ elim c.uptime [
      | err e ↦ err (wrapped internal (lit "failed to collect uptime" ∷ []) e)
      | ok uptime ↦ ok (record {
        timestamp = now;
        cpu_percent = first_percent percents;
        mem_total = memory.total;
        mem_used = memory.used;
        mem_percent = memory.used_percent;
        uptime = uptime;
      })
    ]
  ]
]
