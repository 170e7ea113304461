-- ===== src/Classifier/Tests.antt =====
-- Runs of the classifier, and its theorems at concrete paths.
use pkgundo.Prelude.{
  Text, lit, starts_with, contains, ends_with, text_eq, Bool, true, false, ◌≡◌, refl, ◌↔◌,
}
use pkgundo.Classifier.{
  FileCategory, config, cache, symlink, starts_any, contains_any, is_home, is_package_db,
  is_generated_cache, is_package_cache, is_temp, is_runtime, is_log, is_service_unit, is_config,
  is_library, is_cache_in_library, is_binary, is_share, is_cache_in_share, classify_system,
  classify_path, never_touch, rollback_action_for_category,
}
use pkgundo.Classifier.Protection.{InHome, action-eq-never_touch_iff}

run : Bool → Text → FileCategory
unfolding classify_path classify_system is_home is_package_db is_generated_cache is_package_cache
    is_temp is_runtime is_log is_service_unit is_config is_library is_cache_in_library is_binary
    is_share is_cache_in_share starts_any contains_any starts_with contains ends_with text_eq lit
run = classify_path

fonts_in_etc : run false (lit "/etc/fonts/local.conf") ≡ cache
unfolding run
fonts_in_etc = refl

nginx_config : run false (lit "/etc/nginx/nginx.conf") ≡ config
unfolding run
nginx_config = refl

unknown_link : run true (lit "/opt/x") ≡ symlink
unfolding run
unknown_link = refl

action-eq-never_touch_iff_example :
    (rollback_action_for_category (classify_path false (lit "/homestead")) ≡ never_touch)
    ↔ InHome (lit "/homestead")
action-eq-never_touch_iff_example = action-eq-never_touch_iff false (lit "/homestead")
