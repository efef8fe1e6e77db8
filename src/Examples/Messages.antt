-- ===== src/Examples/Messages.antt =====
-- A drain that Discord refuses, and a message of 2400 characters.
use hop_react.Common.{ℕ, zero, suc, List, [], ◌++◌, All, Text, codes, arith, length}
use hop_react.Store.Outbox.{Notification, pending_notifications}
use hop_react.Notify.Drain.{SendResult, failed, drain_once}
use hop_react.Notify.Drain.Settled.{Quiet, drain_once_settles}
use hop_react.Notify.Fit.{fit_content}
use hop_react.Notify.Fit.Limit.{IsFit, fit_content-IsFit}
use hop_react.Examples.Tables.{db, today}

abbrev count_of : ℕ → List Notification → ℕ
count_of u group = length group

abbrev outage : Text → ℕ → SendResult
outage account n = failed (codes "503")

drain_once_settles_example :
    All
      (λ n. Quiet today n.row.id (drain_once count_of outage today 100 db).0.notifications)
      (pending_notifications today 100 db)
drain_once_settles_example = drain_once_settles count_of outage today 100 db

-- As many lines of 51 characters.
abbrev lines : ℕ → Text
lines zero = []
lines (suc n) = codes "• **A repeater on a hill** (repeater) — seen again\n" ++ lines n

abbrev body : Text
body = lines 48

abbrev link : Text
link = codes "\n\nhttps://hop.example/ — manage your alerts"

fit_content-IsFit_example : IsFit body link (fit_content body link)
fit_content-IsFit_example = fit_content-IsFit body link (omega arith)
