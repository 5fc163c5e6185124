-- ===== src/Lib.antt =====
-- OpenIM server: connections of users, sending, transfer, storage and reading of messages, names of
-- conversations, groups, friends, and the rights to send and to revoke.
--
-- A client opens a websocket; `wsHandler` admits it (MsgGateway.Admission) and the loop of `Run`
-- registers it in the map of connections, where a login may kick older ones (MsgGateway.Server over
-- MsgGateway.UserMap). `SendMsg` checks a message that a client sends (MsgVerify.Send,
-- MsgVerify.Receive) and puts it in a queue (MsgSend). The transfer takes the queue apart by key
-- (MsgTransfer.Distribution), sorts the messages by their options (MsgTransfer.Sorting), gives
-- those of a conversation, which is named by session type and users (MsgProcessor), their sequence
-- numbers (MsgTransfer.Numbering), and hands them on to be pushed and stored (MsgTransfer.Handler).
-- They are stored by sequence number in documents of a hundred (MsgStore.Doc, MsgStore.Block,
-- MsgStore.Chat). Users read ranges of sequence numbers (MsgStore.Range, MsgStore.Reading), say how
-- far they have read (MsgRead), clear conversations (MsgClear) and take messages back
-- (MsgVerify.Revoke). Who is in a group and with which role is kept by the group service (Group),
-- and who is whose friend by the friend service (Friend); the rights to send ask both.
--
-- Files and code:
--   Base, Base/*: tests, lists, integers, texts, maps, decimals, sorting and joining of strings.
--   Constant: pkg/protocol/constant.
--   MsgGateway/UserMap: internal/msggateway/user_map.go, each operation by its name.
--   MsgGateway/Server: internal/msggateway/n_ws_server.go, `registerClient`, `unregisterClient`,
--     `multiTerminalLoginChecker`, `KickUserConn`, `Run`.
--   MsgGateway/Admission: `wsHandler`, and `WsVerifyToken` of pkg/authverify/token.go.
--   MsgStore/Doc: pkg/common/db/table/unrelation/msg.go.
--   MsgStore/Convert: pkg/common/convert/msg.go.
--   MsgStore/Block, Chat, Range, Expiry, Deletion: pkg/common/db/controller/msg.go, `BatchInsertBlock`,
--     `BatchInsertChat2DB`, `RevokeMsg`, `GetMsgBySeqsRange`, `DeleteConversationMsgsAndSetMinSeq`,
--     `DeleteMsgsPhysicalBySeqs`, `DeleteUserMsgsBySeqs`.
--   MsgStore/Reading: how stored messages are read, `GetMsgBySeqIndexIn1Doc` of
--     pkg/common/db/unrelation/msg.go, `findMsgInfoBySeq` and `getMsgBySeqsRange` of the controller, and
--     `GetMessagesBySeq` of pkg/common/db/cache/msg.go.
--   MsgProcessor/Options, Conversation: pkg/msgprocessor/options.go and conversation.go.
--   Group/Tables: pkg/common/db/relation and pkg/common/db/controller/group.go, the rows and transactions.
--   Group/Calls, Creating, Leaving, Joining, Roles: internal/rpc/group/group.go, the handlers that change
--     groups, members, roles, mutes and requests.
--   Friend/Tables: pkg/common/db/relation/friend_model.go, friend_request_model.go and black_model.go.
--   Friend/Database: pkg/common/db/controller/friend.go, the transactions.
--   Friend/Server: internal/rpc/friend/friend.go and black.go; `handle` joins the handlers that change the
--     tables to one of commands, and `serve` runs several.
--   MsgTransfer/Distribution, Sorting, Handler: internal/msgtransfer/online_history_msg_handler.go,
--     `MessagesDistributionHandle`, `getPushStorageMsgList`, one round of `Run`.
--   MsgTransfer/Numbering: `BatchInsertChat2Cache` of pkg/common/db/controller/msg.go.
--   MsgRead: internal/rpc/msg/as_read.go.
--   MsgClear: internal/rpc/msg/delete.go, `ClearConversationsMsg` and `UserClearAllMsg`.
--   MsgSend: internal/rpc/msg/send.go and callback.go, and `encapsulateMsgData` of verify.go.
--   MsgVerify/Send, Receive, Revoke: internal/rpc/msg/verify.go and revoke.go.
--   Tests/*: the theorems at concrete inputs, among them a collection of documents in memory.
--
-- State is a record and a handler a function from it; errors are values. Times, sequence numbers and
-- roles are natural numbers, so negative ones are not modelled except where a function tests for them.
-- The collection of documents, the token cache, the caches of messages, the callbacks and the other
-- services are parameters; what is assumed of the collection are the records `IsCollection` and
-- `CreatesOne`, and of the messages that are read the record `IsNumbered`, all with an instance
-- under Tests; of a collection from which old messages are deleted, `MakesNone` and `LeavesLater`,
-- with an instance too; of Redis, `KeepsMaxSeq`, `KeepsHasRead` and `KeepsUserMin`; of the tools'
-- `DistinctAny`, `Distincts`; of the visiting of a map's entries, `VisitsAll`; of the collection
-- from which messages are deleted by number, `Marks`. A message in the transfer is a pointer that
-- the lists share; the model writes what a list sees of it.
--
-- Bounds: a block of n fields gets 2 n + 2 rounds of its loop, two for each field, which is shown to
-- be enough. The loop of `GetMsgBySeqsRange` that looks for older messages takes its fuel as an
-- argument, since it need not end. The recursion over the documents of a conversation takes its fuel
-- as an argument too; one round more than there are documents is shown to be enough. Documents have
-- 100 places, as in the source.
--
-- Not modelled: websocket frames, compression, Redis, MongoDB and MySQL themselves, Kafka, push
-- services, the HTTP interface, generated code, notifications (their results are ignored by the
-- callers), logging, and metrics. Of the message transfer, `MsgToModifyMQ` and the session that fills
-- the batches; of the friend service, the reading calls by pages; of the group service, changes of the
-- group's or a member's information; `DeleteMsgs`, which calls what is modelled in MsgStore/Deletion;
-- of the message controller, `GetMsgBySeqs` and `UserMsgsDestruct`.
mod Base
pub mod Constant
pub mod MsgGateway
pub mod MsgStore
pub mod MsgProcessor
pub mod Group
pub mod Friend
pub mod MsgTransfer
pub mod MsgRead
pub mod MsgSend
pub mod MsgClear
pub mod MsgVerify
mod Tests
