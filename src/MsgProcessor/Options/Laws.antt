-- ===== src/MsgProcessor/Options/Laws.antt =====
-- What an option reads as after a list of settings.
use k.Base.{
  ◌≡◌, ◌∙◌, refl, ite, Bool, true, List, [], ◌∷◌, Str, str_dec, lookup, store, lookup-store, arith,
  ap,
}
use k.MsgProcessor.Options.{Options, OptionsOpt, setting, with_options, new_msg_options, is}

-- The value of the last setting of a key, and `d` where there is none.
unfoldable pub last_setting : Str → Bool → List OptionsOpt → Bool
last_setting key d [] = d
last_setting key d (f ∷ fs) = last_setting key (ite (str_dec (setting f).0 key) (setting f).1 d) fs

pub is-store :
    (o : Options) (k j : Str) (b : Bool) → is (store str_dec k b o) j ≡ ite (str_dec k j) b (is o j)
unfolding is
is-store o k j b = ground (arith, lookup-store str_dec k j b o)

-- An option reads as its last setting, else as it did before; a key that nobody set reads as true.
pub is-with_options :
    (o : Options) (key : Str) (fs : List OptionsOpt)
    → is (with_options o fs) key ≡ last_setting key (is o key) fs
unfolding with_options last_setting
is-with_options o key [] = refl
is-with_options o key (f ∷ fs) =
    is-with_options (store str_dec (setting f).0 (setting f).1 o) key fs
    ∙ ap (λ b. last_setting key b fs) (is-store o (setting f).0 key (setting f).1)

-- Every option of the map that `NewMsgOptions` returns reads as set, after no settings, offline push
-- too; `WithOptions` on it sets what it is given and leaves the rest set.
pub is-new_msg_options :
    (key : Str) (fs : List OptionsOpt)
    → is (with_options new_msg_options fs) key ≡ last_setting key true fs
unfolding is new_msg_options lookup
is-new_msg_options key fs = is-with_options [] key fs
