-- ===== src/Approval/Tests.antt =====
-- Runs of `RemoteApprovalPolicyTracker` (src/shim/remote-approval-policy.ts).
use remote_codex.Base.{
  String, ◌≡◌, refl, true, false, [], ◌∷◌, arith, nat_key, string_key, get, set, delete, has,
}
use remote_codex.Json.{Value, num, str, obj, field, end, lookup_field, has_field}
use remote_codex.Rpc.{is_rpc_request, is_rpc_response}
use remote_codex.Approval.Tracker.{
  init, requires_approval, mode_for_thread, approval_policy_from_params, policy_without_text,
  permission_presentation, presentation_for_thread, start_thread, observe_request,
  observe_client_message, note_listing, note_start, observe_server_message,
}
use remote_codex.Approval.Safety.{
  from_client, from_server, observe, observe_all, NeverAsked, observe_all-requires_approval,
}

abbrev start_with : String → Value
start_with policy = obj (
    field "id" (num 1) (
      field "method" (str "thread/start")
        (field "params" (obj (field "approvalPolicy" (str policy) end)) end)))

abbrev started : Value
started = obj (
    field "id" (num 1)
      (field "result" (obj (field "thread" (obj (field "id" (str "a") end)) end)) end))

-- A thread started with the policy "never" is not asked for.
never_asks :
    requires_approval "a"
      (observe_all (from_client (start_with "never") ∷ from_server started ∷ []) init)
    ≡ false
unfolding observe_all observe observe_client_message observe_server_message observe_request
    note_listing note_start start_thread permission_presentation presentation_for_thread
    requires_approval mode_for_thread approval_policy_from_params policy_without_text is_rpc_request
    is_rpc_response lookup_field has_field get set delete has
never_asks = refl

on_request-NeverAsked : NeverAsked (from_client (start_with "on-request"))
unfolding approval_policy_from_params lookup_field
on_request-NeverAsked e = ground (arith, string_key.same_iff "on-request" "never")

observe_all-requires_approval_example :
    requires_approval "a"
      (observe_all (from_client (start_with "on-request") ∷ from_server started ∷ []) init)
    ≡ true
observe_all-requires_approval_example =
    observe_all-requires_approval (from_client (start_with "on-request") ∷ from_server started ∷ [])
      "a" (on_request-NeverAsked, (tt, tt))
