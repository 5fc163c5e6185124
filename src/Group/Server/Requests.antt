-- ===== src/Group/Server/Requests.antt =====
-- GroupApplicationResponse: what it leaves of a request.
use k.Base.{
  some_eq, ℤ, pos, ◌≡◌, ◌∙◌, refl, sym, ap, inl, inr, Bool-cases, Option-cases, false, not, ◌||◌,
  Option, none, some, List, [], ◌∷◌, Str, any, arith,
}
use k.Group.Tables.{
  Tables, GroupMemberModel, GroupRequestModel, change, find, is_member, is_request,
  take_group_request, create_member, update_handler, handler_group_request, duplicate_row,
}
use k.Group.Calls.{Context}
use k.Group.Joining.{
  GroupApplicationResponseReq, agree, refusal, is_result, handle_request, admit_member, new_member,
  group_application_response,
}
use k.Group.Server.Kept.{Kept, keeps}
use k.Group.Server.Ends.{Ends, ends, refused-Ends}
use k.Base.{Sum-cases}

-- A request that has an answer.
unfoldable Handled : Str → Str → Tables → Type 0
Handled g u t =
    (r : GroupRequestModel) × (take_group_request t g u ≡ some r)
    × (is_result r.handle_result (pos 0) ≡ false)

find-handled :
    (g u text : Str) (answer : ℤ) (rows : List GroupRequestModel) (r : GroupRequestModel)
    → find (is_request g u) rows ≡ some r
    → find (is_request g u) (
        change
          (is_request g u)
          (λ row. record row { handled_msg = text; handle_result = answer })
          rows)
      ≡ some (record r { handled_msg = text; handle_result = answer })
find-handled g u text answer [] r h = ground arith
find-handled g u text answer (x ∷ rows) r h = elim (Bool-cases (is_request g u x)) [
  | inl e ↦ let h' = rw e at h in rw (e, e, some_eq h') refl
  | inr e ↦ let h' = rw e at h in rw (e, e) (find-handled g u text answer rows r h')
]

update_handler-Handled :
    (t : Tables) (g u text : Str) (answer : ℤ) (r : GroupRequestModel)
    → take_group_request t g u ≡ some r
    → is_result answer (pos 0) ≡ false
    → Handled g u (update_handler t g u text answer)
unfolding Handled take_group_request update_handler
update_handler-Handled t g u text answer r h k = (_, find-handled g u text answer t.requests r h, k)

create_member-Handled :
    (t left : Tables) (g u : Str) (row : GroupMemberModel)
    → Handled g u t
    → create_member t row ≡ some left
    → Handled g u left
unfolding Handled take_group_request create_member
create_member-Handled t left g u row (r, h, k) e =
    elim (Bool-cases (any (is_member row.group_id row.user_id) t.members)) [
      | inl n ↦ ground arith
      | inr n ↦
          let e' = rw n at e in
          (r, ap (λ (x : Tables). find (is_request g u) x.requests) (sym (some_eq e')) ∙ h, k)
    ]

handle_request-Ends :
    (c : Context) (t : Tables) (req : GroupApplicationResponseReq)
    (member : Option GroupMemberModel) (r : GroupRequestModel)
    → take_group_request t req.group_id req.from_user_id ≡ some r
    → is_result req.handle_result (pos 0) ≡ false
    → Ends (Handled req.group_id req.from_user_id) (handle_request c t req member)
unfolding handle_request handler_group_request
handle_request-Ends c t req none r h k =
    let handled =
      update_handler-Handled t req.group_id req.from_user_id req.handled_msg req.handle_result r h
        k in
    search (ends, handled) depth 12
handle_request-Ends c t req (some row) r h k =
    let handled =
      update_handler-Handled t req.group_id req.from_user_id req.handled_msg req.handle_result r h
        k in
    elim (Option-cases (
      create_member
        (update_handler t req.group_id req.from_user_id req.handled_msg req.handle_result) row)) [
          | inl e ↦ rw (handle_request, handler_group_request, e) (refused-Ends _ t duplicate_row)
          | inr (left, e) ↦
              let done = create_member-Handled _ left _ _ row handled e in
              rw (handle_request, handler_group_request, e) (search (ends, done) depth 12)
        ]

admit_member-Ends :
    (c : Context) (t : Tables) (req : GroupApplicationResponseReq) (r : GroupRequestModel)
    → take_group_request t req.group_id req.from_user_id ≡ some r
    → is_result req.handle_result (pos 0) ≡ false
    → Ends (Handled req.group_id req.from_user_id) (admit_member c t req r)
unfolding admit_member
admit_member-Ends c t req r h k =
    elim (Sum-cases (c.callback (new_member c r req.group_id req.from_user_id))) [
      | inl (x, e) ↦ rw (admit_member, e) (refused-Ends _ t x)
      | inr (row, e) ↦ rw (admit_member, e) (handle_request-Ends c t req (some row) r h k)
    ]

no_zero :
    (a : ℤ) → not (is_result a agree || is_result a refusal) ≡ false → is_result a (pos 0) ≡ false
no_zero a h = ground arith

group_application_response-Ends :
    (c : Context) (t : Tables) (req : GroupApplicationResponseReq)
    → Ends (Handled req.group_id req.from_user_id) (group_application_response c t req)
unfolding group_application_response
group_application_response-Ends c t req =
    search (ends, handle_request-Ends, admit_member-Ends, no_zero) depth 20

again-Handled :
    (c : Context) (t : Tables) (req : GroupApplicationResponseReq)
    → Handled req.group_id req.from_user_id t
    → Kept t (group_application_response c t req)
unfolding Handled group_application_response
again-Handled c t req (r, h, k) = rw (group_application_response, h, k) (search keeps depth 12)

-- A request to join is answered once: after an answer that succeeds, no answer to the request of that user for
-- that group changes the tables, whoever gives it.
pub answered_once :
    (c d : Context) (t : Tables) (req again : GroupApplicationResponseReq)
    → (group_application_response c t req).1 ≡ none
    → (again.group_id ≡ req.group_id) × (again.from_user_id ≡ req.from_user_id)
    → (group_application_response d (group_application_response c t req).0 again).0
      ≡ (group_application_response c t req).0
unfolding Ends Kept
answered_once c d t req again h (p, q) =
    let handled = group_application_response-Ends c t req h in
    again-Handled d (group_application_response c t req).0 again (rw (p, q) handled)
