-- ===== src/Model/Status.antt =====
-- The states of process instances (models/process_instance.py), work items
-- (services/work_items.py) and tasks (models/task.py, with SpiffWorkflow's `TaskState` names).
use m8flow_bpmn_core.Base.{String, Bool, true, false, List, [], ◌∷◌, String_Eq}

pub data ProcessInstanceStatus : Type 0 where
  not_started running user_input_required waiting suspended complete error terminated :
      ProcessInstanceStatus

-- `ProcessInstanceStatus.….value`
unfoldable pub status_value : ProcessInstanceStatus → String
status_value ProcessInstanceStatus.not_started = "not_started"
status_value ProcessInstanceStatus.running = "running"
status_value ProcessInstanceStatus.user_input_required = "user_input_required"
status_value ProcessInstanceStatus.waiting = "waiting"
status_value ProcessInstanceStatus.suspended = "suspended"
status_value ProcessInstanceStatus.complete = "complete"
status_value ProcessInstanceStatus.error = "error"
status_value ProcessInstanceStatus.terminated = "terminated"

abbrev pub all_statuses : List ProcessInstanceStatus
all_statuses =
    ProcessInstanceStatus.not_started ∷ ProcessInstanceStatus.running
    ∷ ProcessInstanceStatus.user_input_required ∷ ProcessInstanceStatus.waiting
    ∷ ProcessInstanceStatus.suspended ∷ ProcessInstanceStatus.complete ∷ ProcessInstanceStatus.error
    ∷ ProcessInstanceStatus.terminated ∷ []

unfoldable pub Status-discrete : Discrete ProcessInstanceStatus
Status-discrete = hlevel

-- Membership of `_TERMINAL_STATUSES`.
unfoldable pub has_terminal_status : ProcessInstanceStatus → Bool
has_terminal_status ProcessInstanceStatus.complete = true
has_terminal_status ProcessInstanceStatus.error = true
has_terminal_status ProcessInstanceStatus.terminated = true
has_terminal_status _ = false

-- `_ACTIVE_STATUSES`
unfoldable pub active_statuses : List ProcessInstanceStatus
active_statuses =
    ProcessInstanceStatus.not_started ∷ ProcessInstanceStatus.running
    ∷ ProcessInstanceStatus.user_input_required ∷ ProcessInstanceStatus.waiting ∷ []

pub data WorkItemState : Type 0 where
  ready claimed completed terminated cancelled error : WorkItemState

-- The values that `TaskModel.validate_state` lets into the column `state`: the names of
-- SpiffWorkflow's `TaskState`, and the compatibility value "TERMINATED".
pub data TaskState : Type 0 where
  maybe likely future waiting ready started completed error cancelled terminated : TaskState
