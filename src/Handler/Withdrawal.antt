-- ===== src/Handler/Withdrawal.antt =====
-- internal/handler/withdraw.go: WithdrawReport. Removing the photo's file is left out.
use beacon_backend.Prelude.{String, Bool, not, ◌==◌, if◌then◌else◌}
use beacon_backend.Std.Text.{trim_space}
use beacon_backend.Store.Withdraw.{WithdrawOutcome, withdraw_report}
use beacon_backend.Handler.Reply.{Reply, sent, refused, Handler}

abbrev outcome_reply : String → WithdrawOutcome → Reply String
outcome_reply id out =
    if not out.found
    then refused 404 "not_found"
    else if not out.owned
    then refused 403 "forbidden"
    else sent 200 id

module _ {F : Type 0} where
  -- `header` is X-Device-Id.
  unfoldable pub withdraw : Bool → String → String → Handler F String
  withdraw lost id header db =
      if id == ""
      then (refused 400 "bad_id", db)
      else if trim_space header == ""
      then (refused 400 "device_id_required", db)
      else if lost
      then (refused 500 "db", db)
      else (
        outcome_reply id (withdraw_report id (trim_space header) db).0,
        (withdraw_report id (trim_space header) db).1,
      )
