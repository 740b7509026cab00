-- ===== src/Approvals/Signed.antt =====
-- What histories of internal/approvals never do.
use meristem.Base.{
  String, Bool, true, false, Option, none, some, List, [], ◌∷◌, ◌++◌, ◌≡◌, refl, sym, ◌∙◌, ap,
  subst, arith, any, any-append,
}
use meristem.Domain.{Uuid}
use meristem.Approvals.{Approval, Status, Fact, ApprovalStore, find_approval}
use meristem.Approvals.Service.{is_pending}
use meristem.Approvals.Change.{Call, call, calls, signs, is_ruled, Change, same, added, ruled}
use meristem.Approvals.Calls.Methods.{call-Change}

some_row : {r r' : Approval} → ◌≡◌ {A = Option Approval} (some r) (some r') → r ≡ r'
some_row h = ground arith

-- An approval that is not pending is what it is after any calls: its decision, who made it, when
-- and why.
pub decided_stays :
    (event_id : Fact → String → Uuid) (id : Uuid) (cs : List Call) (s : ApprovalStore)
    (r : Approval)
    → find_approval id s.approvals ≡ some r
    → is_pending r.status ≡ false
    → find_approval id (calls event_id cs s).approvals ≡ some r
unfolding calls
decided_stays event_id id [] s r f p = f
decided_stays event_id id (c ∷ cs) s r f p =
    decided_stays event_id id cs (call event_id c s) r (next (call-Change event_id id c s)) p
  where
    next :
        Change c (find_approval id s.approvals) (find_approval id (call event_id c s).approvals)
        → find_approval id (call event_id c s).approvals ≡ some r
    next (same e) = e ∙ f
    next (added x o o' q) = cc
    next (ruled x x' o q o' k) =
        cc (ap (λ (a : Approval). is_pending a.status) (some_row (sym o ∙ f)))

-- The decision on a row that has one is among some calls.
abbrev Signed : List Call → Option Approval → Type 0
Signed cs none = Unit {0}
Signed cs (some r) = is_ruled r.status ≡ true → any (signs r) cs ≡ true

Signed-more : (c : Call) (cs : List Call) (o : Option Approval) → Signed cs o → Signed (c ∷ cs) o
Signed-more c cs none k = tt
Signed-more c cs (some r) k = λ d. ground (arith, k d)

Signed-pending : (cs : List Call) (r : Approval) → r.status ≡ Status.pending → Signed cs (some r)
Signed-pending cs r p d = cc (ap is_ruled p)

Signed-Change :
    (c : Call) (cs : List Call) (o o' : Option Approval)
    → Change c o o'
    → Signed cs o
    → Signed (c ∷ cs) o'
Signed-Change c cs o o' (same e) k = subst (Signed (c ∷ cs)) (sym e) (Signed-more c cs o k)
Signed-Change c cs o o' (added r e e' p) k =
    subst (Signed (c ∷ cs)) (sym e') (Signed-pending (c ∷ cs) r p)
Signed-Change c cs o o' (ruled r r' e p e' q) k =
    subst (Signed (c ∷ cs)) (sym e') (λ d. ground (arith, q d))

any_moved :
    (p : Call → Bool) (c : Call) (xs ys : List Call) → any p (xs ++ c ∷ ys) ≡ any p (c ∷ xs ++ ys)
any_moved p c xs ys = ground (arith, any-append p xs (c ∷ ys), any-append p xs ys)

Signed-moved :
    (c : Call) (xs ys : List Call) (o : Option Approval)
    → Signed (xs ++ c ∷ ys) o
    → Signed (c ∷ xs ++ ys) o
Signed-moved c xs ys none k = tt
Signed-moved c xs ys (some r) k = λ d. sym (any_moved (signs r) c xs ys) ∙ k d

module _ (event_id : Fact → String → Uuid) (id : Uuid) where
  calls-Signed :
      (cs past : List Call) (s : ApprovalStore)
      → Signed past (find_approval id s.approvals)
      → Signed (cs ++ past) (find_approval id (calls event_id cs s).approvals)
  unfolding calls
  calls-Signed [] past s k = k
  calls-Signed (c ∷ cs) past s k =
      Signed-moved c cs past (find_approval id (calls event_id cs (call event_id c s)).approvals) (
        calls-Signed cs (c ∷ past) (call event_id c s)
          (Signed-Change c past _ _ (call-Change event_id id c s) k))

append_nil : (cs : List Call) → cs ++ [] ≡ cs
append_nil [] = refl
append_nil (c ∷ cs) = ap (◌∷◌ c) (append_nil cs)

-- In a database that calls made from one without approvals, each approval that is approved or denied
-- was so decided by one of those calls, by a human's token that is not root and not the requester's.
pub decision_signed :
    (event_id : Fact → String → Uuid) (cs : List Call) (s : ApprovalStore) (id : Uuid)
    (r : Approval)
    → s.approvals ≡ []
    → find_approval id (calls event_id cs s).approvals ≡ some r
    → is_ruled r.status ≡ true
    → any (signs r) cs ≡ true
unfolding find_approval
decision_signed event_id cs s id r e f d =
    let start : Signed [] (find_approval id s.approvals) =
      subst (λ xs. Signed [] (find_approval id xs)) (sym e) tt in
    let all_signed = subst (Signed (cs ++ [])) f (calls-Signed event_id id cs [] s start) in
    subst (λ xs. any (signs r) xs ≡ true) (append_nil cs) (all_signed d)
