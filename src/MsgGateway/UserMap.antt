-- ===== src/MsgGateway/UserMap.antt =====
-- internal/msggateway/user_map.go. The `sync.Map` from a user to the slice of the user's
-- connections is an association list. Of a connection the model keeps what the map reads.
pub mod Laws
pub mod Platforms
use k.Base.{
  ℕ, ◌==◌, Bool, true, false, not, if◌then◌else◌, Option, none, some, List, [], ◌∷◌, ◌++◌, map,
  keep, Str, str_dec, str_eq, contains, lookup, store, remove,
}

pub record Client : Type 0 where
  pub user_id : Str
  pub platform_id : ℕ
  pub remote_addr : Str
  pub token : Str

abbrev pub UserMap : Type 0
UserMap = List (Str × List Client)

unfoldable pub new_user_map : UserMap
new_user_map = []

unfoldable pub get_all : UserMap → Str → Option (List Client)
get_all u key = lookup str_dec key u

-- The results of `Get`: the clients, whether the user is known, whether the platform is.
pub record Found : Type 0 where
  pub clients : List Client
  pub user_existed : Bool
  pub client_existed : Bool

abbrev pub on_platform : ℕ → Client → Bool
on_platform p c = c.platform_id == p

abbrev pub is_nonempty {ℓ} : {A : Type ℓ} → List A → Bool
is_nonempty [] = false
is_nonempty (x ∷ xs) = true

found_in : Option (List Client) → ℕ → Found
found_in none p = record { clients = []; user_existed = false; client_existed = false }
found_in (some cs) p = record {
  clients = keep (on_platform p) cs;
  user_existed = true;
  client_existed = is_nonempty (keep (on_platform p) cs);
}

unfoldable pub get : UserMap → Str → ℕ → Found
unfolding found_in get_all
get u key p = found_in (get_all u key) p

set_in : Option (List Client) → UserMap → Str → Client → UserMap
set_in none u key v = store str_dec key (v ∷ []) u
set_in (some old) u key v = store str_dec key (old ++ v ∷ []) u

unfoldable pub set : UserMap → Str → Client → UserMap
unfolding set_in get_all
set u key v = set_in (get_all u key) u key v

-- The rest of both deletions: an empty slice takes the user out of the map.
put_back : UserMap → Str → List Client → UserMap × Bool
put_back u key [] = (remove str_dec key u, true)
put_back u key (c ∷ cs) = (store str_dec key (c ∷ cs) u, false)

abbrev pub differs_from : Str → Client → Bool
differs_from addr c = not (str_eq c.remote_addr addr)

delete_in : Option (List Client) → UserMap → Str → Str → UserMap × Bool
unfolding put_back
delete_in none u key addr = (u, false)
delete_in (some old) u key addr = put_back u key (keep (differs_from addr) old)

unfoldable pub delete : UserMap → Str → Str → UserMap × Bool
unfolding delete_in get_all
delete u key addr = delete_in (get_all u key) u key addr

abbrev pub not_among : List Client → Client → Bool
not_among gone c = not (contains c.remote_addr (map (λ (d : Client). d.remote_addr) gone))

delete_clients_in : Option (List Client) → UserMap → Str → List Client → UserMap × Bool
unfolding put_back
delete_clients_in none u key gone = (u, false)
delete_clients_in (some old) u key gone = put_back u key (keep (not_among gone) old)

unfoldable pub delete_clients : UserMap → Str → List Client → UserMap × Bool
unfolding delete_clients_in get_all
delete_clients u key gone = delete_clients_in (get_all u key) u key gone

unfoldable pub delete_all : UserMap → Str → UserMap
delete_all u key = remove str_dec key u
