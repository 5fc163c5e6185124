-- ===== src/MsgVerify/Receive/Laws.antt =====
-- Who receives a message.
use k.Base.{
  ℕ, ◌==◌, ◌≡◌, ◌≢◌, ◌⊎◌, ◌↔◌, inl, inr, Bool, Bool-cases, true, false, if◌then◌else◌, Str, arith,
  sym, subst,
}
use k.MsgProcessor.Options.{Options}
use k.MsgVerify.Receive.{Settings, modify_message_by_user_message_receive_opt}

abbrev expected : ℕ → ℕ → ℕ → Bool
expected content global single =
    if global == 1
    then false
    else if global == 2
    then true
    else if single == 1
    then content == 2200
    else true

expected-true :
    (content global single : ℕ)
    → expected content global single ≡ true
    → (global ≢ 1) × ((global ≡ 2) ⊎ (single ≢ 1) ⊎ (content ≡ 2200))
expected-true content global single h = elim (Bool-cases (global == 2)) [
  | inl e ↦ (λ k. ground arith, inl (ground arith))
  | inr e ↦ elim (Bool-cases (single == 1)) [
    | inl l ↦ (λ k. ground arith, inr (inr (ground arith)))
    | inr l ↦ (λ k. ground arith, inr (inl (λ k. ground arith)))
  ]
]

answered :
    (s : Settings) (user conversation : Str) (content : ℕ) (o : Options) (global single : ℕ)
    → s.global_opt user ≡ inr global
    → s.single_opt user conversation ≡ inr single
    → (modify_message_by_user_message_receive_opt s user conversation content o).0
      ≡ expected content global single
unfolding modify_message_by_user_message_receive_opt
answered s user conversation content o global single g h =
    rw (modify_message_by_user_message_receive_opt, g, h) (ground arith)

-- Where both settings of a receiver are known the message goes out exactly if the global one is not to receive
-- nothing, and, unless the global one already asks for no notice, the conversation's is not to receive
-- nothing or the message is a read receipt.
pub receive_opt_delivers :
    (s : Settings) (user conversation : Str) (content : ℕ) (o : Options) (global single : ℕ)
    → s.global_opt user ≡ inr global
    → s.single_opt user conversation ≡ inr single
    → ((modify_message_by_user_message_receive_opt s user conversation content o).0 ≡ true)
      ↔ ((global ≢ 1) × ((global ≡ 2) ⊎ (single ≢ 1) ⊎ (content ≡ 2200)))
receive_opt_delivers s user conversation content o global single g h =
    subst
      (λ (b : Bool). (b ≡ true) ↔ ((global ≢ 1) × ((global ≡ 2) ⊎ (single ≢ 1) ⊎ (content ≡ 2200))))
      (sym (answered s user conversation content o global single g h))
      (expected-true content global single, λ k. ground arith)
