-- ===== src/MsgClear.antt =====
-- internal/rpc/msg/delete.go, `ClearConversationsMsg` and `UserClearAllMsg`: a user, or everybody, is
-- to see no message of some conversations any more. Redis is a parameter, and a map of numbers is the
-- list of its entries in the order in which they are visited. Notifications are left out.
pub mod Laws
use k.Base.{
  ℕ, ◌+◌, Bool, true, false, if◌then◌else◌, Option, none, some, List, [], ◌∷◌, Str, str_eq, contain,
  checked_at, taken_at,
}
use k.MsgStore.Range.{SeqReply}

-- The numbers in Redis; a write answers whether it succeeded.
pub record SeqStore : Type 1 where
  pub Store : Type 0
  -- of each conversation that has one, the greatest number
  pub get_max_seqs : Store → List Str → Option (List (Str × ℕ))
  -- by conversation and user
  pub get_conversation_user_min_seq : Store → Str → Str → SeqReply
  pub set_conversation_user_min_seq : Store → Str → Str → ℕ → Store × Bool
  pub set_min_seq : Store → Str → ℕ → Store × Bool
  -- by user and conversation
  pub set_has_read_seq : Store → Str → Str → ℕ → Store × Bool

pub data ClearError : Type 0 where
  no_permission conversation_error store_error : ClearError

-- The caller, and what the conversation service and the local cache answer.
pub record ClearContext : Type 0 where
  pub op_user_id : Str
  pub managers : List Str
  pub get_conversations_by_conversation_id : List Str → Option (List Str)
  pub get_conversation_ids : Str → Option (List Str)

pub record DeleteSyncOpt : Type 0 where
  pub is_sync_self : Bool
  pub is_sync_other : Bool

unfoldable pub validate_delete_sync_opt : Option DeleteSyncOpt → Bool × Bool
validate_delete_sync_opt none = (false, false)
validate_delete_sync_opt (some opt) = (opt.is_sync_self, opt.is_sync_other)

unfoldable pub check_access_v3 : ClearContext → Str → Option ClearError
check_access_v3 c owner =
    if contain c.managers c.op_user_id
    then none
    else if str_eq c.op_user_id owner
    then none
    else some no_permission

unfoldable pub get_min_seqs : List (Str × ℕ) → List (Str × ℕ)
get_min_seqs [] = []
get_min_seqs ((conv, n) ∷ seqs) = (conv, n + 1) ∷ get_min_seqs seqs

module _ (db : SeqStore) where
  open db use {Store, get_max_seqs, set_conversation_user_min_seq, set_min_seq, set_has_read_seq}

  abbrev pub ClearOutcome : Type 0
  ClearOutcome = Store × Option ClearError

  abbrev and_then : Store × Bool → (Store → ClearOutcome) → ClearOutcome
  and_then (s, true) next = next s
  and_then (s, false) next = (s, some store_error)

  -- setSeqs: the writes up to the first that fails, and what follows them.
  unfoldable pub set_seqs :
      (Store → Str → ℕ → Store × Bool)
      → List (Str × ℕ)
      → (Store → ClearOutcome)
      → Store
      → ClearOutcome
  set_seqs set [] next s = next s
  set_seqs set ((conv, n) ∷ seqs) next s = and_then (set s conv n) (set_seqs set seqs next)

  unfoldable pub set_all : Str → Bool → List (Str × ℕ) → Store → ClearOutcome
  unfolding set_seqs
  set_all user sync_other maxs s =
      let read = set_seqs (λ s' conv n. set_has_read_seq s' user conv n) maxs (λ s'. (s', none)) in
      if sync_other
      then set_seqs set_min_seq (get_min_seqs maxs) read s
      else set_seqs (λ s' conv n. set_conversation_user_min_seq s' conv user n) (get_min_seqs maxs)
          read s

  unfoldable pub clear_conversation :
      ClearContext → Store → List Str → Str → Option DeleteSyncOpt → ClearOutcome
  unfolding set_all
  clear_conversation c s ids user opt =
      taken_at s conversation_error (c.get_conversations_by_conversation_id ids) (λ existing.
        taken_at s store_error (get_max_seqs s existing)
          (λ maxs. set_all user (validate_delete_sync_opt opt).1 maxs s))

  unfoldable pub clear_conversations_msg :
      ClearContext → Store → List Str → Str → Option DeleteSyncOpt → ClearOutcome
  clear_conversations_msg c s ids user opt =
      checked_at s (check_access_v3 c user) (clear_conversation c s ids user opt)

  unfoldable pub user_clear_all_msg :
      ClearContext → Store → Str → Option DeleteSyncOpt → ClearOutcome
  user_clear_all_msg c s user opt = checked_at s (check_access_v3 c user) (
      taken_at s conversation_error (c.get_conversation_ids user)
        (λ ids. clear_conversation c s ids user opt))
