-- ===== src/MsgStore/Chat/Revocation.antt =====
-- What a user reads after `RevokeMsg`.
use k.Base.{
  ap, ℕ, ◌<◌, ◌≡◌, ◌≢◌, ◌⊎◌, ◌∙◌, refl, sym, inl, inr, Bool, Bool-cases, true, false, if◌then◌else◌,
  some, List, [], ◌∷◌, Str, contains, str_dec,
}
use k.MsgStore.Doc.{MsgInfoModel, MsgDataModel, RevokeModel, get_doc_id, get_msg_index}
use k.MsgStore.Doc.Laws.{place_injective}
use k.MsgStore.Convert.{MsgData, msg_db2pb}
use k.MsgStore.Reading.{with_read, with_revoke, find_msg_info, seen_msg, add_found}
use k.MsgStore.Block.{MsgDocStore, done, update_key_revoke, revoke_ptr}
use k.MsgStore.Block.Laws.{View, IsCollection, put_field, or_blank}
use k.MsgStore.Block.Once.{batch_insert_block_once}
use k.MsgStore.Chat.{revoke_msg}
use k.MsgStore.Chat.Reader.{read_element, read_at, read_msg, read_msg-read_at}

-- Two messages have different places.
apart :
    (c d : Str) (j n : ℕ)
    → 0 < j
    → 0 < n
    → ((c ≢ d) ⊎ (j ≢ n))
    → (get_doc_id c j ≢ get_doc_id d n) ⊎ (get_msg_index j ≢ get_msg_index n)
apart c d j n h k o = elim (str_dec (get_doc_id c j) (get_doc_id d n)) [
  | no p ↦ inl p
  | yes p ↦ inr (λ q.
      let same = place_injective c d j n h k p q in elim o [ inl x ↦ x same.0 | inr x ↦ x same.1 ])
]

module _ (content : RevokeModel → MsgDataModel → Str) (user : Str) where
  -- What the user reads of a message that is now revoked: nothing where the user has deleted it, else
  -- the message with the notice as its content.
  abbrev pub noticed : MsgInfoModel → RevokeModel → MsgDataModel → List MsgData
  noticed i r m =
      if contains user i.del_list
      then []
      else record (msg_db2pb (with_read i.is_read m)) { content_type = 2101; content = content r m }
        ∷ []

  seen_revoked :
      (b : Bool) (r : RevokeModel) (m : MsgDataModel)
      → msg_db2pb (with_read b (with_revoke content (some r) m))
        ≡ record (msg_db2pb (with_read b m)) { content_type = 2101; content = content r m }
  unfolding with_read with_revoke msg_db2pb
  seen_revoked true r m = refl
  seen_revoked false r m = refl

  read_element-noticed :
      (i : MsgInfoModel) (r : RevokeModel) (m : MsgDataModel)
      → i.msg ≡ some m
      → read_element content user (some (record i { revoke = some r })) ≡ noticed i r m
  unfolding find_msg_info seen_msg add_found
  read_element-noticed i r m h = elim (Bool-cases (contains user i.del_list)) [
    | inl x ↦ rw (find_msg_info, x) refl
    | inr x ↦ rw (find_msg_info, x, h) (ap (λ n. n ∷ []) (seen_revoked i.is_read r m))
  ]

  module _ (db : MsgDocStore) (v : View db) (laws : IsCollection db v) (conv : Str) where
    open db use {Store, update_msg}

    abbrev written : Store → ℕ → RevokeModel → Store
    written s seq r =
        (update_msg s (get_doc_id conv seq) (get_msg_index seq) update_key_revoke
          (revoke_ptr (some r))).0

    written-read_msg :
        (s : Store) (seq : ℕ) (r : RevokeModel) (c : Str) (j : ℕ)
        → 0 < seq
        → 0 < j
        → ((c ≢ conv) ⊎ (j ≢ seq))
        → read_msg content user db v c (written s seq r) j ≡ read_msg content user db v c s j
    written-read_msg s seq r c j p q o =
        let d = get_doc_id conv seq in
        let z = get_msg_index seq in
        let e = get_doc_id c j in
        let y = get_msg_index j in
        let f = revoke_ptr (some r) in
        read_msg-read_at content user db v c (written s seq r) j
        ∙ ap (λ b. read_at content user b (v.cell (written s seq r) e y))
            (laws.update_has s d z update_key_revoke f e)
        ∙ ap (read_at content user (v.has s e))
            (laws.update_other s d z update_key_revoke f e y (apart c conv j seq q p o))
        ∙ sym (read_msg-read_at content user db v c s j)

    -- Of a stored message with a number from 1 on, once `RevokeMsg` succeeds, a user reads from the documents
    -- the notice of the revocation in place of its content, or still nothing where the user has deleted it; and every
    -- other message, of this conversation or of another, is read as before.
    pub revoke_msg_lem :
        (s : Store) (seq : ℕ) (r : RevokeModel) (i : MsgInfoModel) (m : MsgDataModel) (c : Str)
        (j : ℕ)
        → 0 < seq
        → v.has s (get_doc_id conv seq) ≡ true
        → v.cell s (get_doc_id conv seq) (get_msg_index seq) ≡ some i
        → i.msg ≡ some m
        → 0 < j
        → ((c ≢ conv) ⊎ (j ≢ seq))
        → (revoke_msg db conv s seq r).1 ≡ done
        → (read_msg content user db v conv (revoke_msg db conv s seq r).0 seq
            ≡ some (noticed i r m))
          × (read_msg content user db v c (revoke_msg db conv s seq r).0 j
              ≡ read_msg content user db v c s j)
    unfolding revoke_msg put_field
    revoke_msg_lem s seq r i m c j p there at has_msg q o finished =
        let d = get_doc_id conv seq in
        let z = get_msg_index seq in
        let f = revoke_ptr (some r) in
        let (same, found) = batch_insert_block_once db v laws conv s seq r there finished in
        let cell = laws.update_cell s d z update_key_revoke f found in
        (
          ap (λ t. read_msg content user db v conv t seq) same
              ∙ read_msg-read_at content user db v conv (written s seq r) seq
              ∙ ap (λ b. read_at content user b (v.cell (written s seq r) d z))
                  (laws.update_has s d z update_key_revoke f d ∙ there)
              ∙ ap (λ x. some (read_element content user x)) cell
              ∙ ap
                  (λ x.
                    some (
                      read_element content user
                        (some (put_field update_key_revoke f (or_blank x)))))
                  at
              ∙ ap some (read_element-noticed i r m has_msg),
          ap (λ t. read_msg content user db v c t j) same ∙ written-read_msg s seq r c j p q o,
        )
