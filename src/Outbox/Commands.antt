-- ===== src/Outbox/Commands.antt =====
-- integrations/commands.py: the grammar of `/issue` and the text of its result.
use cyrene_exchange.Prelude.{String, str_eq, ◌^+◌, take_chars, decimal, if◌then◌else◌}
use cyrene_exchange.Outbox.Models.{JobState, Dict, get_str, Operation}

-- `render_issue_command_result`
unfoldable pub render_issue_command_result : Operation → String → JobState → Dict → String
render_issue_command_result operation repository_name state evidence =
    let issue = repository_name ^+ "#" ^+ decimal operation.issue_number in
    elim state [
      | JobState.unknown ↦ "The result for " ^+ issue ^+ " is unknown. No automatic retry was made."
      | JobState.failed ↦ "The requested operation for " ^+ issue ^+ " did not complete."
      | JobState.accepted ↦
          "The requested operation for " ^+ issue ^+ " was accepted; completion is unconfirmed."
      | _ ↦
          if str_eq operation.operation_id "integration.issue.query"
          then (let title = take_chars 500 (get_str evidence "title" "") in
              let issue_state = take_chars 40 (get_str evidence "state" "unknown") in
              take_chars 1500 (issue ^+ " is " ^+ issue_state ^+ ": " ^+ title))
          else if str_eq operation.operation_id "integration.issue.comment"
          then "Comment on " ^+ issue ^+ " was confirmed."
          else (let new_state = take_chars 40 (get_str evidence "state" "confirmed") in
              issue ^+ " state change was confirmed: " ^+ new_state ^+ ".")
    ]
