-- ===== src/Tests/Instances.antt =====
-- Lifecycle calls on the samples.
use mathlib.Core.List.{Perm}
use m8flow_bpmn_core.Base.{
  String_Eq, Nat_Eq, List, true, false, some, none, [], ◌∷◌, ◌≡◌, ◌≢◌, inl, refl, All, ◌++◌,
}
use m8flow_bpmn_core.Model.Status.{ProcessInstanceStatus, has_terminal_status}
use m8flow_bpmn_core.Model.Event.{ProcessLifecycleEventType}
use m8flow_bpmn_core.Model.Process.{ProcessInstance, ProcessInstanceEvent}
use m8flow_bpmn_core.Model.Task.{WorkItem}
use m8flow_bpmn_core.Model.Database.{Database}
use m8flow_bpmn_core.Session.{ok}
use m8flow_bpmn_core.Authorization.Commands.{process_suspend_command, process_terminate_command}
use m8flow_bpmn_core.Authorization.Policy.{database_policy}
use m8flow_bpmn_core.ProcessInstances.{get_process_instance_events}
use m8flow_bpmn_core.ProcessInstances.Log.{
  IsEventOf, IsChronological, get_process_instance_events-IsChronological,
}
use m8flow_bpmn_core.ProcessInstances.Final.{LifecycleCall, after_all, lifecycle-final}
use m8flow_bpmn_core.ProcessInstances.RuntimeState.{
  item_of, close_process_instance_runtime_state, reopen_process_instance_runtime_state,
}
use m8flow_bpmn_core.ProcessInstances.RuntimeState.Closing.{
  IsClosed, KeepsOthers, close_process_instance_runtime_state-IsClosed,
  reopen_process_instance_runtime_state-reopens,
}
use m8flow_bpmn_core.ProcessInstances.Lifecycle.{
  authorized_instance, suspended_fields, ended_fields, touched, suspend_process_instance,
  error_process_instance, terminate_process_instance,
}
use m8flow_bpmn_core.ProcessInstances.Lifecycle.Access.{instance_at, database_policy-IsReadOnly}
use m8flow_bpmn_core.ProcessInstances.Lifecycle.Events.{IsMember, lifecycle_event}
use m8flow_bpmn_core.ProcessInstances.Lifecycle.Effects.{suspend_process_instance-suspends}
use m8flow_bpmn_core.ProcessInstances.Lifecycle.Ending.{
  IsEnded, terminate_process_instance-IsEnded, error_process_instance-IsEnded,
}
use m8flow_bpmn_core.Tests.Samples.{sample, instance_row, idle_runtime}
use m8flow_bpmn_core.Tests.Evaluated.{evaluated}

abbrev open_instance : ProcessInstance
open_instance = instance_row 1 ProcessInstanceStatus.user_input_required

abbrev done_instance : ProcessInstance
done_instance = instance_row 2 ProcessInstanceStatus.complete

may_suspend :
    authorized_instance database_policy "acme" 1 1 process_suspend_command sample
    ≡ (ok open_instance, sample)
unfolding evaluated
may_suspend = refl

may_terminate :
    authorized_instance database_policy "acme" 1 2 process_terminate_command sample
    ≡ (ok open_instance, sample)
unfolding evaluated
may_terminate = refl

not_ended : has_terminal_status ProcessInstanceStatus.user_input_required ≡ false
unfolding evaluated
not_ended = refl

not_suspended : ProcessInstanceStatus.user_input_required ≢ ProcessInstanceStatus.suspended
not_suspended e = cc

done_found : instance_at sample "acme" 2 ≡ some done_instance
unfolding evaluated
done_found = refl

open_found : instance_at sample "acme" 1 ≡ some open_instance
unfolding evaluated
open_found = refl

no-IsMember : IsMember sample "acme" none
unfolding evaluated
no-IsMember = refl

-- The log of an instance that was suspended at 9, as an event of time 4 is added later.
abbrev two_events : Database
two_events = record sample {
  process_instance_events = record {
    rows =
        lifecycle_event "acme" 1 ProcessLifecycleEventType.process_instance_suspended 9 (some 1) 1
        ∷ lifecycle_event "acme" 1 ProcessLifecycleEventType.process_instance_created 4 (some 1) 2
        ∷ [];
    next_id = 3;
  };
}

open_found_too : instance_at two_events "acme" 1 ≡ some open_instance
unfolding evaluated
open_found_too = refl

lifecycle-final_example :
    after_all idle_runtime database_policy "acme" 2
      (LifecycleCall.suspend 1 (some 5)
        ∷ LifecycleCall.retry 2 none
        ∷ LifecycleCall.fail none none
        ∷ LifecycleCall.terminate 1 none
        ∷ [])
      sample
    ≡ sample
lifecycle-final_example =
    lifecycle-final idle_runtime database_policy "acme" 2 database_policy-IsReadOnly sample
      done_instance done_found (inl refl)
      (LifecycleCall.suspend 1 (some 5)
        ∷ LifecycleCall.retry 2 none
        ∷ LifecycleCall.fail none none
        ∷ LifecycleCall.terminate 1 none
        ∷ [])

suspend_process_instance-suspends_example :
    (db' : Database) × (suspend_process_instance database_policy "acme" 1 1 (some 5) sample
      ≡ (ok (suspended_fields 5 open_instance), db'))
    × (instance_at db' "acme" 1 ≡ some (suspended_fields 5 open_instance))
    × ((suspended_fields 5 open_instance).status ≡ ProcessInstanceStatus.suspended)
    × (db'.process_instance_events.rows
        ≡ lifecycle_event "acme" 1 ProcessLifecycleEventType.process_instance_suspended 5 (some 1) 1
          ∷ [])
    × (db'.tasks ≡ sample.tasks)
    × (db'.work_items ≡ sample.work_items)
    × (db'.scheduler_jobs ≡ sample.scheduler_jobs)
suspend_process_instance-suspends_example =
    suspend_process_instance-suspends database_policy database_policy-IsReadOnly "acme" 1 1 5 sample
      open_instance may_suspend not_ended not_suspended

terminate_process_instance-IsEnded_example :
    (db' : Database) × (terminate_process_instance database_policy "acme" 1 2 (some 5) sample
      ≡ (ok (touched 5 (ended_fields ProcessInstanceStatus.terminated 5 open_instance)), db'))
    × IsEnded ProcessInstanceStatus.terminated ProcessLifecycleEventType.process_instance_terminated
        "acme" 1
        (some 2)
        5
        open_instance
        sample
        db'
terminate_process_instance-IsEnded_example =
    terminate_process_instance-IsEnded database_policy database_policy-IsReadOnly "acme" 1 2 5
      sample open_instance may_terminate not_ended

error_process_instance-IsEnded_example :
    (db' : Database) × (error_process_instance "acme" 1 none (some 5) sample
      ≡ (ok (touched 5 (ended_fields ProcessInstanceStatus.error 5 open_instance)), db'))
    × IsEnded ProcessInstanceStatus.error ProcessLifecycleEventType.process_instance_error "acme" 1
        none 5 open_instance sample db'
error_process_instance-IsEnded_example =
    error_process_instance-IsEnded "acme" 1 none 5 sample open_instance no-IsMember open_found
      not_ended

close_process_instance_runtime_state-IsClosed_example :
    ((close_process_instance_runtime_state 1 5 (some 1) sample).0 ≡ ok tt)
    × IsClosed 1 (close_process_instance_runtime_state 1 5 (some 1) sample).1
    × KeepsOthers 1 sample (close_process_instance_runtime_state 1 5 (some 1) sample).1
close_process_instance_runtime_state-IsClosed_example =
    close_process_instance_runtime_state-IsClosed 1 5 (some 1) sample

reopen_process_instance_runtime_state-reopens_example :
    ((reopen_process_instance_runtime_state 1 5 sample).0 ≡ ok tt)
    × All
        (λ (w : WorkItem). item_of 1 w ≡ true → w.completed ≡ false)
        (reopen_process_instance_runtime_state 1 5 sample).1.work_items.rows
    × KeepsOthers 1 sample (reopen_process_instance_runtime_state 1 5 sample).1
reopen_process_instance_runtime_state-reopens_example =
    reopen_process_instance_runtime_state-reopens 1 5 sample

get_process_instance_events-IsChronological_example :
    (es others : List ProcessInstanceEvent) × (get_process_instance_events "acme" 1 two_events
      ≡ (ok es, two_events))
    × Perm (es ++ others) two_events.process_instance_events.rows
    × All (IsEventOf "acme" 1) es
    × All (λ e. ¬ IsEventOf "acme" 1 e) others
    × IsChronological es
get_process_instance_events-IsChronological_example =
    get_process_instance_events-IsChronological "acme" 1 two_events open_instance open_found_too
