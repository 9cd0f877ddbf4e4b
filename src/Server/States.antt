-- ===== src/Server/States.antt =====
-- The names of states that commands take: engine/src/protocol/types.rs, server/handler/commands.rs.
use flashq.Prelude.{String, ◌||◌, Option, none, some, ◌==◌, string_eq, if◌then◌else◌}
use flashq.Protocol.Job.{
  JobState, waiting, delayed, active, completed, failed, waiting_children, waiting_parent, stalled,
}

-- `JobState::from_str`, of the lower case.
unfoldable pub state_from_str : String → Option JobState
state_from_str s =
    if s == "waiting"
    then some waiting
    else if s == "delayed"
    then some delayed
    else if s == "active"
    then some active
    else if s == "completed"
    then some completed
    else if s == "failed"
    then some failed
    else if s == "waiting-children" || s == "waitingchildren" || s == "waiting_children"
    then some waiting_children
    else if s == "waiting-parent" || s == "waitingparent" || s == "waiting_parent"
    then some waiting_parent
    else if s == "stalled"
    then some stalled
    else none

-- `state.as_deref().and_then(JobState::from_str)`
abbrev pub state_filter : (String → String) → Option String → Option JobState
state_filter to_lowercase none = none
state_filter to_lowercase (some s) = state_from_str (to_lowercase s)

-- The states that `Clean` takes.
unfoldable pub clean_state_of : String → Option JobState
clean_state_of s =
    if s == "waiting"
    then some waiting
    else if s == "delayed"
    then some delayed
    else if s == "completed"
    then some completed
    else if s == "failed"
    then some failed
    else none
