-- ===== src/Tests/Provisioned.antt =====
-- Runs of the provisioning calls on the small ledger.
use murray_context_ledger_mc.Base.{
  ◌≡◌, refl, sym, ap, ◌∙◌, inl, inr, String, ◌==◌, true, false, none, List, [], is_blank,
}
use murray_context_ledger_mc.Effect.{Result}
use murray_context_ledger_mc.Effect.Runs.{Runs}
use murray_context_ledger_mc.Db.{service_client}
use murray_context_ledger_mc.Store.{Tables, Membership, Role, ClientRow}
use murray_context_ledger_mc.Admin.{
  role_of, seat_status_of, add_member, remove_member, register_connector, set_seat_status,
  revoke_seat, reinstate_seat,
}
use murray_context_ledger_mc.Admin.Members.{
  Added, add_member_returned, Undone, remove_member-add_member,
}
use murray_context_ledger_mc.Admin.Seats.{
  StatusSet, set_seat_status_returned, reinstate_seat-revoke_seat,
}
use murray_context_ledger_mc.Admin.Register.{UniqueIds, Registers, register_connector_returned}
use murray_context_ledger_mc.Tests.Office.{is_service, blank_seat, office, office-IsLawfulService}
use murray_context_ledger_mc.Tests.World.{settings, ledger, value, returned}

abbrev nobody : Membership
nobody = record { org_id = ""; user_id = ""; role = Role.rep }

abbrev added_run : Result Membership × Tables
added_run = add_member office settings "now" (λ s. s) "o1" "u4" "office" ledger

added-Runs :
    Runs
      (add_member office settings "now" (λ s. s) "o1" "u4" "office")
      ledger
      (value nobody added_run)
      added_run.1
unfolding add_member role_of service_client
added-Runs =
    returned (add_member office settings "now" (λ s. s) "o1" "u4" "office") ledger nobody refl

is_bypass : is_service (service_client settings) ≡ true
unfolding service_client
is_bypass = refl

add_member_example :
    Added office office-IsLawfulService settings "now"
      (λ s. s)
      is_bypass
      "o1"
      "u4"
      "office"
      ledger.memberships
      added_run.1.memberships
add_member_example =
    add_member_returned office office-IsLawfulService settings "now" (λ s. s) is_bypass "o1" "u4"
      "office" ledger (value nobody added_run) added_run.1 added-Runs

abbrev removed_run : Result (List Membership) × Tables
removed_run = remove_member office settings "now" (λ s. s) "o1" "u4" added_run.1

removed-Runs :
    Runs
      (remove_member office settings "now" (λ s. s) "o1" "u4")
      added_run.1
      (value [] removed_run)
      removed_run.1
unfolding remove_member add_member role_of service_client
removed-Runs = returned (remove_member office settings "now" (λ s. s) "o1" "u4") added_run.1 [] refl

remove_member-add_member_example :
    Undone office office-IsLawfulService settings "now"
      (λ s. s)
      is_bypass
      "o1"
      "u4"
      "office"
      (value [] removed_run)
      ledger.memberships
      removed_run.1.memberships
remove_member-add_member_example =
    remove_member-add_member office office-IsLawfulService settings "now" (λ s. s) is_bypass "o1"
      "u4" "office" ledger (value nobody added_run) added_run.1 (value [] removed_run) removed_run.1
      added-Runs removed-Runs

abbrev closed_run : Result (List ClientRow) × Tables
closed_run = set_seat_status office settings "now" (λ s. s) "o1" "app" "revoked" ledger

closed-Runs :
    Runs
      (set_seat_status office settings "now" (λ s. s) "o1" "app" "revoked")
      ledger
      (value [] closed_run)
      closed_run.1
unfolding set_seat_status seat_status_of service_client
closed-Runs =
    returned (set_seat_status office settings "now" (λ s. s) "o1" "app" "revoked") ledger [] refl

set_seat_status_example :
    StatusSet office office-IsLawfulService settings "now"
      (λ s. s)
      is_bypass
      "o1"
      "app"
      "revoked"
      ledger
      closed_run.1
set_seat_status_example =
    set_seat_status_returned office office-IsLawfulService settings "now" (λ s. s) is_bypass "o1"
      "app" "revoked" ledger (value [] closed_run) closed_run.1 closed-Runs

abbrev gone_run : Result (List ClientRow) × Tables
gone_run = revoke_seat office settings "now" (λ s. s) "o1" "app" ledger

gone-Runs :
    Runs
      (revoke_seat office settings "now" (λ s. s) "o1" "app")
      ledger
      (value [] gone_run)
      gone_run.1
unfolding revoke_seat seat_status_of service_client
gone-Runs = returned (revoke_seat office settings "now" (λ s. s) "o1" "app") ledger [] refl

abbrev back_run : Result (List ClientRow) × Tables
back_run = reinstate_seat office settings "now" (λ s. s) "o1" "app" gone_run.1

back-Runs :
    Runs
      (reinstate_seat office settings "now" (λ s. s) "o1" "app")
      gone_run.1
      (value [] back_run)
      back_run.1
unfolding reinstate_seat seat_status_of service_client
back-Runs = returned (reinstate_seat office settings "now" (λ s. s) "o1" "app") gone_run.1 [] refl

reinstate_seat-revoke_seat_example : back_run.1 ≡ ledger
reinstate_seat-revoke_seat_example =
    reinstate_seat-revoke_seat office office-IsLawfulService settings "now" (λ s. s) is_bypass "o1"
      "app" ledger (value [] gone_run) gone_run.1 (value [] back_run) back_run.1
      ((λ h. (refl, refl)), ((λ h. cc), tt)) gone-Runs back-Runs

abbrev enrolled_run : Result ClientRow × Tables
enrolled_run =
    register_connector office settings "now" (λ s. s) "o1" "murray" "murray_app" "u1" none none
      ledger

enrolled-Runs :
    Runs
      (register_connector office settings "now" (λ s. s) "o1" "murray" "murray_app" "u1" none none)
      ledger
      (value blank_seat enrolled_run)
      enrolled_run.1
unfolding register_connector is_blank service_client
enrolled-Runs =
    returned
      (register_connector office settings "now" (λ s. s) "o1" "murray" "murray_app" "u1" none none)
      ledger blank_seat refl

true-false : true ≡ false → ⊥
true-false h = cc

other_ids : ◌≡◌ {A = String} "app" "old" → ⊥
other_ids h = true-false (ap (λ s. s == "app") h)

seat_id : {r q : ClientRow} → r ≡ q → r.id ≡ q.id
seat_id e = ap (λ (x : ClientRow). x.id) e

ledger-UniqueIds : UniqueIds ledger.clients
ledger-UniqueIds r q (inl a) (inl b) e = a ∙ sym b
ledger-UniqueIds r q (inr (inl a)) (inr (inl b)) e = a ∙ sym b
ledger-UniqueIds r q (inl a) (inr (inl b)) e =
    absurd (other_ids (sym (seat_id a) ∙ (e ∙ seat_id b)))
ledger-UniqueIds r q (inr (inl a)) (inl b) e =
    absurd (other_ids (sym (seat_id b) ∙ (sym e ∙ seat_id a)))
ledger-UniqueIds r q (inr (inr a)) m e = absurd a
ledger-UniqueIds r q (inl a) (inr (inr b)) e = absurd b
ledger-UniqueIds r q (inr (inl a)) (inr (inr b)) e = absurd b

register_connector_example :
    (is_blank "murray_app" ≡ false)
    × Registers office office-IsLawfulService settings "now"
        (λ s. s)
        is_bypass
        "o1"
        "murray"
        "murray_app"
        "u1"
        none
        none
        (value blank_seat enrolled_run)
        ledger
        enrolled_run.1
register_connector_example =
    register_connector_returned office office-IsLawfulService settings "now" (λ s. s) is_bypass "o1"
      "murray" "murray_app" "u1" none none ledger (value blank_seat enrolled_run) enrolled_run.1
      ledger-UniqueIds enrolled-Runs
