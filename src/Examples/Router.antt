-- ===== src/Examples/Router.antt =====
-- The theorems on addresses at concrete screens.
use cryptis_dchat_project.Prelude.{◌≡◌, refl, true, false, some, [], ◌∷◌, length, codes}
use cryptis_dchat_project.Router.{Uri, chat, settings, Screen, path_of, apply_path, is_plain}
use cryptis_dchat_project.Router.Address.{apply_path-path_of}
use cryptis_dchat_project.Router.History.{
  first_tab, Tab, route_start, route_sync, settle, here, next, started, Reach-settles,
}

abbrev same_text : Uri
same_text = record {
  encode = λ t. t;
  decode = λ t. some t;
  encode_plain = λ t h. refl;
  decode_plain = λ t h. refl;
}

abbrev one_chat : Screen
one_chat = record {
  view = chat;
  active_thread = some (codes "t1");
  new_open = false;
  group_open = false;
  filter_open = true;
  others_open = false;
  threads = codes "t1" ∷ [];
  gate = false;
}

apply_path-path_of_example :
    (s' : Screen) × (apply_path same_text (path_of same_text one_chat) one_chat ≡ some s')
    × (path_of same_text s' ≡ path_of same_text one_chat)
unfolding is_plain
apply_path-path_of_example =
    apply_path-path_of same_text one_chat one_chat refl (λ has. (refl, (λ e. cc e)))

abbrev in_settings : Screen
in_settings = record one_chat { view = settings }

abbrev started_tab : Tab
started_tab = (route_start same_text one_chat (first_tab (codes "/app"))).1

Reach-settles_example :
    ((settle same_text
        (length started_tab.behind)
        in_settings
        (route_sync same_text in_settings started_tab)).expect_pop
      ≡ false)
    × ((settle same_text
          (length started_tab.behind)
          in_settings
          (route_sync same_text in_settings started_tab)).current.path
        ≡ path_of same_text in_settings)
unfolding route_start apply_path
Reach-settles_example =
    Reach-settles same_text one_chat (route_start same_text one_chat (first_tab (codes "/app"))).0
      in_settings (codes "/app") started_tab
      (next here (started one_chat (first_tab (codes "/app")))) refl refl refl
