-- ===== src/Tests/Processor.antt =====
-- Chats of two users, of a group, and names with underscores.
use k.Base.{refl, [], Str, codes}
use k.MsgProcessor.Conversation.{Msg}
use k.MsgProcessor.Conversation.Names.{SamePair, single_chat_injective}

abbrev message : Str → Str → Msg
message send recv = record {
  session_type = 1;
  send_id = send;
  recv_id = recv;
  group_id = codes "g1";
  options = [];
}

abbrev hello : Msg
hello = message (codes "tom") (codes "ann")

single_chat_injective_example : SamePair hello hello
single_chat_injective_example =
    single_chat_injective hello hello refl refl
      (
        (refl, (refl, (refl, tt))),
        (
          (refl, (refl, (refl, tt))),
          ((refl, (refl, (refl, tt))), ((refl, (refl, (refl, tt))), tt)),
        ),
      )
      refl
