-- ===== src/Tests/Read.antt =====
-- A user who has read a group's conversation to its third of ten messages.
use k.Base.{◌≡◌, ◌≤◌, refl, ℕ, true, some, [], ◌∷◌, Str, codes, arith}
use k.Constant.{super_group_chat_type}
use k.MsgStore.Range.{seq_is}
use k.MsgRead.{
  ReadStore, ReadServices, args, set_conversation_has_read_seq, mark_msgs_as_read,
  mark_conversation_as_read,
}
use k.MsgRead.Laws.{KeepsHasRead, reads, marks_never_lower, read_beyond_max}

-- The store is the number of one user in one conversation.
abbrev one_number : ReadStore
one_number = record {
  Store = ℕ;
  get_max_seq = λ s conv. some 10;
  get_has_read_seq = λ s user conv. seq_is s;
  set_has_read_seq = λ s user conv n. (n, true);
  mark_single_chat_msgs_as_read = λ s user conv seqs. (s, true);
}

one_number_laws : KeepsHasRead one_number
one_number_laws = record {
  read_set = λ s user conv n h. refl;
  read_not_set = λ s user conv n h. cc;
  read_marked = λ s user conv seqs. refl;
}

abbrev services : ReadServices
services = record {
  get_conversation = λ user conv. some super_group_chat_type;
  send_mark_as_read_notification = λ user conv seqs n. true;
}

abbrev u : Str
u = codes "u"

abbrev conv : Str
conv = codes "sg_g"

marks_never_lower_example :
    (3
      ≤ reads one_number services one_number_laws u conv
          (mark_conversation_as_read one_number services 3 u conv 2).0)
    × (3
        ≤ reads one_number services one_number_laws u conv
            (mark_msgs_as_read one_number services 3 u conv (9 ∷ 2 ∷ [])).0)
marks_never_lower_example =
    marks_never_lower one_number services one_number_laws u conv 3 (9 ∷ 2 ∷ []) 2

read_beyond_max_example :
    (set_conversation_has_read_seq one_number services 3 u conv 99 ≡ (3, some args))
    × (one_number.get_has_read_seq
          (mark_conversation_as_read one_number services 3 u conv 99).0
          u
          conv
        ≡ seq_is 99)
read_beyond_max_example =
    read_beyond_max one_number services one_number_laws u conv 3 3 10 99 refl (omega arith) refl
      refl (omega arith) refl
