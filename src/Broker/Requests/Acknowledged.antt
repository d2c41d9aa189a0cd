-- ===== src/Broker/Requests/Acknowledged.antt =====
-- What an acknowledgement does to the groups.
use celery_to_go.Prelude.{String, List, [], Option-cases, inl, inr}
use celery_to_go.Broker.Message.{Message}
use celery_to_go.Broker.Config.{Broker}
use celery_to_go.Broker.Client.{Client}
use celery_to_go.Broker.Groups.Consistent.{IsConsistent}
use celery_to_go.Broker.Groups.Stuck.{
  Run, here, next, acknowledge, IsStuck, Run-IsStuck, Run-IsConsistent,
}
use celery_to_go.Broker.Requests.{acknowledge_message}

module _ (c : Client) where
  open c use {World, delete_message}

  acknowledge_message-Run :
      (message : Message) (b : Broker) (w : World)
      → Run b.active_groups [] (acknowledge_message c message b w).1.active_groups
  unfolding acknowledge_message
  acknowledge_message-Run message b w =
      elim (Option-cases (delete_message b.queue_url message.receipt_handle w).0) [
        | inl deleted ↦ rw (deleted, acknowledge_message) (next here (acknowledge _ _))
        | inr (e, kept) ↦ rw (kept, acknowledge_message) here
      ]

  -- An acknowledgement, whether SQS deletes the message or not, keeps consistent groups
  -- consistent, and does not free a group that is being processed while messages wait in its
  -- queue.
  pub acknowledge_message_keeps :
      (message : Message) (b : Broker) (w : World) (gid : String) (m : Message) (ms : List Message)
      → IsConsistent b.active_groups
      → IsStuck gid m ms b.active_groups
      → let groups = (acknowledge_message c message b w).1.active_groups in
        IsConsistent groups × IsStuck gid m ms groups
  acknowledge_message_keeps message b w gid m ms consistent stuck =
      let run = acknowledge_message-Run message b w in
      (Run-IsConsistent run consistent, (Run-IsStuck run consistent stuck).0)
