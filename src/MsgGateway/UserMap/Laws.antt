-- ===== src/MsgGateway/UserMap/Laws.antt =====
-- What a lookup finds after each change of the map, and that no user is kept without a connection.
use k.Base.{
  ℕ, suc, ◌≡◌, sym, ◌⊎◌, inl, inr, ite, Bool, true, false, none, some, List, [], ◌∷◌, ◌++◌, keep,
  Str, str_dec, lookup, lookup-store, lookup-remove, Distinct, store-Distinct, remove-Distinct,
  length-store_new, length-store_old, length-remove, length, arith, Option-cases, if◌then◌else◌,
}
use k.MsgGateway.UserMap.{
  on_platform, is_nonempty, found_in, Client, UserMap, get_all, get, set, delete, delete_clients,
  differs_from, not_among, set_in, put_back, delete_in, delete_clients_in,
}

-- The slice of a user, empty where the map has none.
unfoldable pub conns : UserMap → Str → List Client
conns u key = elim (get_all u key) [ none ↦ [] | some cs ↦ cs ]

put_back-conns :
    (u : UserMap) (key j : Str) (cs : List Client)
    → conns (put_back u key cs).0 j ≡ ite (str_dec key j) cs (conns u j)
unfolding put_back conns get_all
put_back-conns u key j [] = ground (arith, lookup-remove str_dec key j u)
put_back-conns u key j (c ∷ cs) = ground (arith, lookup-store str_dec key j (c ∷ cs) u)

pub conns-set :
    (u : UserMap) (key j : Str) (c : Client)
    → conns (set u key c) j ≡ ite (str_dec key j) (conns u key ++ c ∷ []) (conns u j)
unfolding set set_in conns get_all
conns-set u key j c = elim (Option-cases (lookup str_dec key u)) [
  | inl e ↦ rw (e, set_in) (ground (arith, lookup-store str_dec key j (c ∷ []) u))
  | inr (old, e) ↦ rw (e, set_in) (ground (arith, lookup-store str_dec key j (old ++ c ∷ []) u))
]

pub conns-delete :
    (u : UserMap) (key j addr : Str)
    → conns (delete u key addr).0 j
      ≡ ite (str_dec key j) (keep (differs_from addr) (conns u key)) (conns u j)
unfolding delete delete_in conns get_all
conns-delete u key j addr = elim (Option-cases (lookup str_dec key u)) [
  | inl e ↦ rw (e, delete_in) (ground arith)
  | inr (old, e) ↦
      rw (e, delete_in) (ground (arith, put_back-conns u key j (keep (differs_from addr) old)))
]

pub conns-delete_clients :
    (u : UserMap) (key j : Str) (gone : List Client)
    → conns (delete_clients u key gone).0 j
      ≡ ite (str_dec key j) (keep (not_among gone) (conns u key)) (conns u j)
unfolding delete_clients delete_clients_in conns get_all
conns-delete_clients u key j gone = elim (Option-cases (lookup str_dec key u)) [
  | inl e ↦ rw (e, delete_clients_in) (ground arith)
  | inr (old, e) ↦
      rw (e, delete_clients_in) (ground (arith, put_back-conns u key j (keep (not_among gone) old)))
]

abbrev pub IsDistinct : UserMap → Type 0
IsDistinct u = Distinct str_dec u

pub set-IsDistinct :
    (u : UserMap) (key : Str) (c : Client) → IsDistinct u → IsDistinct (set u key c)
unfolding set set_in get_all
set-IsDistinct u key c d = elim (Option-cases (lookup str_dec key u)) [
  | inl e ↦ rw (e, set_in) (store-Distinct str_dec key (c ∷ []) u d)
  | inr (old, e) ↦ rw (e, set_in) (store-Distinct str_dec key (old ++ c ∷ []) u d)
]

put_back-IsDistinct :
    (u : UserMap) (key : Str) (cs : List Client) → IsDistinct u → IsDistinct (put_back u key cs).0
unfolding put_back
put_back-IsDistinct u key [] d = remove-Distinct str_dec key u d
put_back-IsDistinct u key (c ∷ cs) d = store-Distinct str_dec key (c ∷ cs) u d

pub delete-IsDistinct :
    (u : UserMap) (key addr : Str) → IsDistinct u → IsDistinct (delete u key addr).0
unfolding delete delete_in get_all
delete-IsDistinct u key addr d = elim (Option-cases (lookup str_dec key u)) [
  | inl e ↦ rw (e, delete_in) d
  | inr (old, e) ↦ rw (e, delete_in) (put_back-IsDistinct u key (keep (differs_from addr) old) d)
]

pub delete_clients-IsDistinct :
    (u : UserMap) (key : Str) (gone : List Client)
    → IsDistinct u
    → IsDistinct (delete_clients u key gone).0
unfolding delete_clients delete_clients_in get_all
delete_clients-IsDistinct u key gone d = elim (Option-cases (lookup str_dec key u)) [
  | inl e ↦ rw (e, delete_clients_in) d
  | inr (old, e) ↦
      rw (e, delete_clients_in) (put_back-IsDistinct u key (keep (not_among gone) old) d)
]

-- How a change moves the number of users: what `Set` does to a new and to a known user.
pub length-set :
    (u : UserMap) (key : Str) (c : Client) (p : ℕ)
    → length (set u key c) ≡ (if (get u key p).user_existed then length u else suc (length u))
unfolding set set_in get get_all
length-set u key c p = elim (Option-cases (lookup str_dec key u)) [
  | inl e ↦ rw (e, set_in) (length-store_new str_dec key (c ∷ []) u e)
  | inr (old, e) ↦ rw (e, set_in) (length-store_old str_dec key (old ++ c ∷ []) old u e)
]

-- The answer of a deletion tells whether the number of users fell.
abbrev pub Shrinks : UserMap → UserMap × Bool → Type 0
Shrinks u r = length u ≡ (if r.1 then suc (length r.0) else length r.0)

put_back-Shrinks :
    (u : UserMap) (key : Str) (cs old : List Client)
    → IsDistinct u
    → lookup str_dec key u ≡ some old
    → Shrinks u (put_back u key cs)
unfolding put_back
put_back-Shrinks u key [] old d e = sym (length-remove str_dec key old u d e)
put_back-Shrinks u key (c ∷ cs) old d e = sym (length-store_old str_dec key (c ∷ cs) old u e)

pub delete-Shrinks : (u : UserMap) (key addr : Str) → IsDistinct u → Shrinks u (delete u key addr)
unfolding delete delete_in get_all
delete-Shrinks u key addr d = elim (Option-cases (lookup str_dec key u)) [
  | inl e ↦ rw (e, delete_in)
  | inr (old, e) ↦ rw (e, delete_in) (put_back-Shrinks u key (keep (differs_from addr) old) old d e)
]

pub delete_clients-Shrinks :
    (u : UserMap) (key : Str) (gone : List Client)
    → IsDistinct u
    → Shrinks u (delete_clients u key gone)
unfolding delete_clients delete_clients_in get_all
delete_clients-Shrinks u key gone d = elim (Option-cases (lookup str_dec key u)) [
  | inl e ↦ rw (e, delete_clients_in)
  | inr (old, e) ↦
      rw (e, delete_clients_in) (put_back-Shrinks u key (keep (not_among gone) old) old d e)
]

-- The two answers of `Get`.
pub get_cases :
    (u : UserMap) (key : Str) (p : ℕ)
    → ((get_all u key ≡ none)
        × (get u key p ≡ record { clients = []; user_existed = false; client_existed = false }))
      ⊎ ((old : List Client) × (get_all u key ≡ some old)
          × (get u key p ≡ record {
            clients = keep (on_platform p) old;
            user_existed = true;
            client_existed = is_nonempty (keep (on_platform p) old);
          }))
unfolding get get_all found_in
get_cases u key p = elim (Option-cases (lookup str_dec key u)) [
  | inl e ↦ inl (e, rw e)
  | inr (old, e) ↦ inr (old, e, rw e)
]

pub conns_absent : (u : UserMap) (key : Str) → get_all u key ≡ none → conns u key ≡ []
unfolding conns
conns_absent u key e = rw (e, conns)

pub conns_present :
    (u : UserMap) (key : Str) (old : List Client) → get_all u key ≡ some old → conns u key ≡ old
unfolding conns
conns_present u key old e = rw (e, conns)

put_back_gone :
    (u : UserMap) (key : Str) (cs : List Client)
    → (put_back u key cs).1 ≡ true
    → lookup str_dec key (put_back u key cs).0 ≡ none
unfolding put_back
put_back_gone u key [] h = ground (arith, lookup-remove str_dec key key u)
put_back_gone u key (c ∷ cs) h = cc

pub delete_clients_gone :
    (u : UserMap) (key : Str) (gone : List Client)
    → (delete_clients u key gone).1 ≡ true
    → get_all (delete_clients u key gone).0 key ≡ none
unfolding delete_clients delete_clients_in get_all
delete_clients_gone u key gone h = elim (Option-cases (lookup str_dec key u)) [
  | inl e ↦ rw (e, delete_clients_in) e
  | inr (old, e) ↦
      rw (e, delete_clients_in)
        (put_back_gone u key (keep (not_among gone) old) (rw (e, delete_clients_in) at h))
]

pub length-set_new :
    (u : UserMap) (key : Str) (c : Client)
    → get_all u key ≡ none
    → length (set u key c) ≡ suc (length u)
unfolding set set_in get_all
length-set_new u key c e = rw (e, set_in) (length-store_new str_dec key (c ∷ []) u e)
