-- ===== src/Service/Gives.antt =====
-- Runs of the service in which one call of `ReceiveMessages` goes on, or a part of it: what it does to
-- the groups, and the messages that it gives.
use celery_to_go.Prelude.{
  ℕ, String, ◌≡◌, ◌≢◌, ◌++◌, false, some, List, [], ◌∷◌, All, arith, ◌==◌, refl, ap, sym, subst,
  eq_iff, ◌∙◌, inl, inr, Option-cases, List-cases,
}
use mathlib.Core.List.{append-nil, append_assoc}
use celery_to_go.Prelude.Int.{ℤ}
use celery_to_go.Prelude.Dict
use celery_to_go.Prelude.Dict.{Dict}
use celery_to_go.Prelude.Errors.{Reply, ok}
use celery_to_go.Protocol.Payload.{TaskPayload}
use celery_to_go.Broker.Message.{Message}
use celery_to_go.Broker.Convert.{or_nil}
use celery_to_go.Broker.Groups.{Groups, get_messages_from_internal_queues, add_messages_to_group}
use celery_to_go.Broker.Groups.Consistent.{of_group}
use celery_to_go.Broker.Receive.{add_groups}
use celery_to_go.Worker.Tasks.Accounting
use celery_to_go.Service.{System, Run, stay, next, take, answer, sort, pass_over, without_group}

-- SQS may answer with any messages.
abbrev pub Anything : System → List Message → Type 0
Anything s ms = Unit

of_group-without :
    (gid j : String) (ms : List Message)
    → (gid == j) ≡ false
    → of_group j (without_group gid ms) ≡ of_group j ms
unfolding of_group without_group
of_group-without gid j [] other = refl
of_group-without gid j (m ∷ ms) other = ground (
  arith,
  of_group-without gid j ms other,
  eq_iff m.message_group_id gid,
  eq_iff m.message_group_id j,
  eq_iff gid j,
)

-- No key is visited twice.
abbrev pub Distinct : List String → Type 0
Distinct [] = Unit
Distinct (k ∷ ks) = All (λ j. (k == j) ≡ false) ks × Distinct ks

-- Under each of the keys stand the messages of that group.
abbrev pub Sorted : List String → Dict (List Message) → List Message → Type 0
Sorted order by_group ms = All (λ gid. or_nil (Dict.get by_group gid) ≡ of_group gid ms) order

Sorted-without :
    (gid : String) (order : List String) (by_group : Dict (List Message)) (ms : List Message)
    → All (λ j. (gid == j) ≡ false) order
    → Sorted order by_group ms
    → Sorted order by_group (without_group gid ms)
Sorted-without gid [] by_group ms other h = tt
Sorted-without gid (j ∷ order) by_group ms other h = (
  h.0 ∙ sym (of_group-without gid j ms other.0),
  Sorted-without gid order by_group ms other.1 h.1,
)

module _ (decode_task : List ℕ → Reply TaskPayload) (tasks : Accounting.System)
    (releasing : List String) where
  abbrev pub Runs : System → System → Type 0
  Runs = Run decode_task Anything

  pub Runs-then : {s t u : System} → Runs s t → Runs t u → Runs s u
  Runs-then r stay = r
  Runs-then r (next r' st) = next (Runs-then r r') st

  -- The service while the loop is in `ReceiveMessages`.
  abbrev pub asking :
      Groups → List Message → List Message → List Message → List Message → List Message → System
  asking groups probed delivered batch accepted returned = record {
    groups = groups;
    probed = probed;
    delivered = delivered;
    batch = batch;
    tasks = tasks;
    releasing = releasing;
    accepted = accepted;
    returned = returned;
  }

  -- From some groups, whatever the books are, the service can come to others, with these messages
  -- given.
  abbrev pub Gives : Groups → List Message → Groups → Type 0
  Gives groups out groups' =
      (batch accepted returned : List Message)
      → (accepted' : List Message) × Runs (asking groups [] [] batch accepted returned)
          (asking groups' [] [] (batch ++ out) accepted' (returned ++ out))

  pub Gives-nothing : (groups : Groups) → Gives groups [] groups
  Gives-nothing groups batch accepted returned =
      (accepted, rw (append-nil batch, append-nil returned) stay)

  pub Gives-then :
      (groups groups' groups'' : Groups) (out more : List Message)
      → Gives groups out groups'
      → Gives groups' more groups''
      → Gives groups (out ++ more) groups''
  Gives-then groups groups' groups'' out more g h batch accepted returned =
      let (accepted', r) = g batch accepted returned in
      let (accepted'', r') = h (batch ++ out) accepted' (returned ++ out) in
      (
        accepted'',
        rw (sym (append_assoc batch out more), sym (append_assoc returned out more))
            (Runs-then r r'),
      )

  pub take-Gives :
      (now : ℕ) (order : List String) (max : ℤ) (groups groups' : Groups) (messages : List Message)
      → get_messages_from_internal_queues now order max groups ≡ ok (messages, groups')
      → Gives groups messages groups'
  take-Gives now order max groups groups' messages e batch accepted returned =
      (accepted, next stay (take now order max refl refl e))

  sort_one :
      (now : ℕ) (gid : String) (m : Message) (ms : List Message) (groups : Groups)
      (delivered batch messages accepted returned : List Message)
      → of_group gid delivered ≡ m ∷ ms
      → Runs (asking groups [] delivered (batch ++ messages) accepted (returned ++ messages)) (
          asking
            (add_messages_to_group now groups gid (m ∷ ms))
            []
            (without_group gid delivered)
            (batch ++ (messages ++ m ∷ []))
            (accepted ++ m ∷ ms)
            (returned ++ (messages ++ m ∷ [])))
  sort_one now gid m ms groups delivered batch messages accepted returned e =
      rw (sym (append_assoc batch messages (m ∷ [])), sym (append_assoc returned messages (m ∷ [])))
        (next stay (sort now gid m ms refl e))

  -- The loop over the groups of a batch.
  add_groups-Runs :
      (now : ℕ) (order : List String) (by_group : Dict (List Message)) (groups : Groups)
      (messages delivered batch accepted returned : List Message)
      → Distinct order
      → ((gid : String) → Dict.get by_group gid ≢ some [])
      → Sorted order by_group delivered
      → let (messages', groups') = add_groups now order by_group groups messages in
        (accepted' : List Message) × (delivered' : List Message) × Runs
          (asking groups [] delivered (batch ++ messages) accepted (returned ++ messages))
          (asking groups' [] delivered' (batch ++ messages') accepted' (returned ++ messages'))
  unfolding add_groups
  add_groups-Runs now [] by_group groups messages delivered batch accepted returned apart full own =
      (accepted, delivered, stay)
  add_groups-Runs now (gid ∷ order) by_group groups messages delivered batch accepted returned apart
        full own =
      elim (Option-cases (Dict.get by_group gid)) [
        | inl missing ↦
            rw (missing, add_groups)
              (add_groups-Runs now order by_group groups messages delivered batch accepted returned
                apart.1 full own.1)
        | inr (ms, found) ↦ elim (List-cases ms) [
          | inl none_of_it ↦ absurd (full gid (found ∙ ap some none_of_it))
          | inr (m, rest, some_of_it) ↦
              let here : Dict.get by_group gid ≡ some (m ∷ rest) = found ∙ ap some some_of_it in
              let e : of_group gid delivered ≡ m ∷ rest = sym own.0 ∙ ap or_nil here in
              let (accepted', delivered', r) =
                add_groups-Runs now order by_group (add_messages_to_group now groups gid (m ∷ rest))
                  (messages ++ m ∷ []) (without_group gid delivered) batch (accepted ++ m ∷ rest)
                  returned apart.1 full
                  (Sorted-without gid order by_group delivered apart.0 own.1) in
              rw (here, add_groups)
                (
                  accepted',
                  delivered',
                  Runs-then
                      (sort_one now gid m rest groups delivered batch messages accepted returned e)
                      r,
                )
        ]
      ]

  from_start :
      (groups : Groups) (delivered batch accepted returned : List Message) {t : System}
      → Runs (asking groups [] delivered (batch ++ []) accepted (returned ++ [])) t
      → Runs (asking groups [] delivered batch accepted returned) t
  from_start groups delivered batch accepted returned {t} r =
      subst (λ l. Runs (asking groups [] delivered l accepted returned) t) (append-nil batch)
        (subst (λ l. Runs (asking groups [] delivered (batch ++ []) accepted l) t)
          (append-nil returned) r)

  pub add_groups-Gives :
      (now : ℕ) (order : List String) (by_group : Dict (List Message)) (groups : Groups)
      (delivered : List Message)
      → Distinct order
      → ((gid : String) → Dict.get by_group gid ≢ some [])
      → Sorted order by_group delivered
      → let (messages, groups') = add_groups now order by_group groups [] in
        Gives groups messages groups'
  add_groups-Gives now order by_group groups delivered apart full own batch accepted returned =
      let (accepted', delivered', r) =
        add_groups-Runs now order by_group groups [] delivered batch accepted returned apart full
          own in
      (
        accepted',
        next
            (Runs-then (next stay (answer delivered refl refl tt))
              (from_start groups delivered batch accepted returned r))
            pass_over,
      )
