-- ===== src/Approvals/Examples.antt =====
-- internal/approvals on a concrete work item: an agent asks, and a human decides.
use meristem.Base.{
  String, true, false, none, some, List, [], ◌∷◌, ◌≡◌, refl, any, trim_space, concat,
}
use meristem.Base.Int.{pos}
use meristem.Domain.{
  Uuid, Token, Source, WorkItem, WorkItemState, HumanReviewStatus, can_transition,
}
use meristem.Store.{find_item}
use meristem.WorkItems.Projectors.{update_item}
use meristem.Approvals.{
  Approval, Status, Decision, Fact, approval_created, approval_decided, approval_expired,
  work_item_transitioned, ApprovalStore, err, already_decided, find_approval, update_approval,
  apply_created, apply_decided, append,
}
use meristem.Approvals.Service.{DecisionInput, create, create_in_tx, decide, append_transition}
use meristem.Approvals.Change.{Call, creating, deciding, calls, signs}
use meristem.Approvals.Signed.{decided_stays, decision_signed}
use meristem.Approvals.Items.Terminal.{terminal_item_stays}

-- The kind of an event and the state that an item goes to make its id.
abbrev event_id : Fact → String → Uuid
event_id (approval_created id item summary request expires_at) disc = 100
event_id (approval_decided id item decision reason) disc = 101
event_id (approval_expired id item reason) disc = 102
event_id (work_item_transitioned id from WorkItemState.awaiting_approval reason) disc = 103
event_id (work_item_transitioned id from to reason) disc = 104

abbrev token : Uuid → Source → Token
token id source = record {
  id = id;
  name = "token";
  is_root = false;
  scopes = [];
  source = source;
  revoked_at = none;
}

abbrev item : WorkItemState → WorkItem
item state = record {
  id = 5;
  title = "item";
  body = "";
  state = state;
  state_reason = none;
  checks = [];
  human_review_status = HumanReviewStatus.approved;
  created_by = none;
  created_at = 0;
  state_entered_at = 0;
  updated_at = 0;
}

abbrev store : WorkItemState → ApprovalStore
store state = record {
  log = [];
  rows = record { approvals = []; items = item state ∷ [] };
  tokens = 1 ∷ 9 ∷ [];
}

abbrev request : Call
request =
    creating
      (record {
        approval_id = 7;
        work_item_id = 5;
        summary = " deploy ";
        request = none;
        expires_in = pos 0;
        actor = token 9 Source.agent;
      })
      0 2_000 "r" 2

abbrev decision : Uuid → Decision → DecisionInput
decision actor d = record {
  approval_id = 7;
  decision = d;
  reason = "";
  actor = token actor Source.human;
}

abbrev approve : Call
approve = deciding (decision 1 Decision.approved) "d" 8

abbrev history : List Call
history = request ∷ approve ∷ []

abbrev approval : Approval
approval = record {
  id = 7;
  work_item_id = 5;
  status = Status.approved;
  summary = "deploy";
  request = "{}";
  requested_by = some 9;
  requested_source = Source.agent;
  created_at = 2;
  expires_at = 3_600_000_002;
  decided_by = some 1;
  decision_source = some Source.human;
  decided_at = some 8;
  decision = some Decision.approved;
  decision_reason = "";
  updated_at = 8;
}

after_history :
    find_approval 7 (calls event_id history (store WorkItemState.running)).approvals ≡ some approval
unfolding calls create create_in_tx decide append_transition append find_approval update_approval
    apply_created apply_decided find_item update_item can_transition trim_space concat
after_history = refl

-- The second decision is refused, whichever it is.
second_decision :
    (decide event_id
      (decision 1 Decision.denied)
      "e"
      9
      (calls event_id history (store WorkItemState.running))).0
    ≡ err already_decided
unfolding calls create create_in_tx decide append_transition append find_approval update_approval
    apply_created apply_decided find_item update_item can_transition trim_space concat
second_decision = refl

decision_signed_example : any (signs approval) history ≡ true
decision_signed_example =
    decision_signed event_id history (store WorkItemState.running) 7 approval refl after_history
      refl

decided_stays_example :
    find_approval 7
      (calls event_id
        (deciding (decision 1 Decision.denied) "e" 9 ∷ [])
        (calls event_id history (store WorkItemState.running))).approvals
    ≡ some approval
decided_stays_example =
    decided_stays event_id 7 (deciding (decision 1 Decision.denied) "e" 9 ∷ [])
      (calls event_id history (store WorkItemState.running)) approval after_history refl

done_item : find_item 5 (store WorkItemState.done).items ≡ some (item WorkItemState.done)
unfolding find_item
done_item = refl

terminal_item_stays_example :
    find_item 5 (calls event_id history (store WorkItemState.done)).items
    ≡ some (item WorkItemState.done)
terminal_item_stays_example =
    terminal_item_stays event_id 5 history (store WorkItemState.done) (item WorkItemState.done)
      done_item refl
